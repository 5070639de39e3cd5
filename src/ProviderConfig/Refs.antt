-- ===== src/ProviderConfig/Refs.antt =====
-- ResolveRef of internal/providerconfig/resolvers/cached_resolver.go: the provider config that a
-- resource refers to, resolved.
pub mod Confined
use signoz_operator.Prelude.{
  String, Bool, true, false, not, ◌&&◌, ◌||◌, Option, none, some, List, [], ◌∷◌, get, str_eq,
  concat, if◌then◌else◌,
}
use signoz_operator.Errors.{
  Error, Result, ok, err, error_text, new, with_code, wrapped, foreign, invalid_input, not_found,
}
use signoz_operator.Core.{ProviderConfigRef}
use signoz_operator.ProviderConfig.Spec.{
  KeySelector, ValueSource, HeaderAuth, TlsSettings, ProviderConfigSpec, secret_names,
  config_map_names,
}
use signoz_operator.ProviderConfig.Resolved.{
  Url, ResolvedHeaderAuthentication, ResolvedTlsConfig, ResolvedProviderConfigSpec,
}
use signoz_operator.ProviderConfig.Cache.{
  RefKind, secret_kind, config_map_kind, Referent, Reader, Cache, no_slots, kind_name, referent,
  Read,
}
use signoz_operator.ProviderConfig.Resolver.{resolve}

-- The provider configs that the API server has: by namespace and name, and the cluster-wide ones.
pub record Configs : Type 0 where
  pub provider_config : String → String → Result ProviderConfigSpec
  pub cluster_provider_config : String → Result ProviderConfigSpec

module _ (reader : Reader) where
  unfoldable pub label :
      ProviderConfigRef → Result ResolvedProviderConfigSpec → Result ResolvedProviderConfigSpec
  label ref (ok r) = ok r
  label ref (err e) = err (
      wrapped
        (concat (
          "provider config "
          ∷ reader.formatting.quote ref.name
          ∷ " could not be resolved: "
          ∷ error_text e
          ∷ []))
        e)

  -- With the config read, its references resolve in the namespace; with what it could not read.
  unfoldable pub resolve_in :
      ProviderConfigRef
      → String
      → String
      → Result ProviderConfigSpec
      → Result ResolvedProviderConfigSpec × List Read
  unfolding label
  resolve_in ref what namespace (err e) =
      (err (wrapped (concat (what ∷ ": " ∷ error_text e ∷ [])) e), [])
  resolve_in ref what namespace (ok spec) =
      let (r, c) = resolve reader namespace spec in (label ref r, c.reads)

  -- ResolveRef, with the references that it read.
  unfoldable pub resolve_ref :
      Configs → ProviderConfigRef → String → String → Result ResolvedProviderConfigSpec × List Read
  resolve_ref configs ref resource_namespace operator_namespace =
      let quote = reader.formatting.quote in
      if str_eq ref.kind "" || str_eq ref.kind "ProviderConfig"
      then resolve_in ref
          (concat
            ("ProviderConfig " ∷ quote ref.name ∷ " in namespace " ∷ quote resource_namespace ∷ []))
          resource_namespace (configs.provider_config resource_namespace ref.name)
      else if str_eq ref.kind "ClusterProviderConfig"
      then resolve_in ref (concat ("ClusterProviderConfig " ∷ quote ref.name ∷ []))
          operator_namespace (configs.cluster_provider_config ref.name)
      else (
        err (
            foreign (
              concat (
                "providerConfigRef.kind "
                ∷ quote ref.kind
                ∷ " is not a known provider config kind"
                ∷ []))),
        [],
      )
