-- ===== src/ProviderConfig.antt =====
-- internal/providerconfig: what a provider config names (Spec), the connection that it resolves to
-- (Resolved), the cache of one resolution (Cache), the resolver (Resolver), the references to
-- provider configs (Refs) and a config's own status (Status).
pub mod Spec
pub mod Resolved
pub mod Cache
pub mod Resolver
pub mod Refs
pub mod Status
