-- ===== src/Clients.antt =====
-- internal/clients/signoz.go: the client of one SigNoz instance; Exchange has its one method.
pub mod Exchange
use signoz_operator.Prelude.{Option}
use signoz_operator.ProviderConfig.Resolved.{
  ResolvedProviderConfigSpec, TlsConfig, tls_client_config,
}

-- The transport is the default one, with the TLS settings of the provider config if it has any.
pub record Client : Type 0 where
  pub resolved : ResolvedProviderConfigSpec
  pub tls : Option TlsConfig

unfoldable pub new : ResolvedProviderConfigSpec → Client
new resolved = record { resolved = resolved; tls = tls_client_config resolved }
