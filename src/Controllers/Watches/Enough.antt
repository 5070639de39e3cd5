-- ===== src/Controllers/Watches/Enough.antt =====
-- The events that requeue an object are enough: nothing else changes what its reference resolves to.
use signoz_operator.Prelude.{String, ◌≡◌, refl, true, ◌||◌, str_eq, eq_refl, Bool-cases, inl, inr}
use signoz_operator.Errors.{Result}
use signoz_operator.Core.{ProviderConfigRef}
use signoz_operator.ProviderConfig.Spec.{ProviderConfigSpec}
use signoz_operator.ProviderConfig.Cache.{Reader}
use signoz_operator.ProviderConfig.Refs.{Configs, resolve_ref}
use signoz_operator.Controllers.Watches.Exact.{
  Config, provider_config, cluster_provider_config, names,
}

-- The config as the API server answers it.
abbrev pub answer_of : Configs → Config → Result ProviderConfigSpec
answer_of configs (provider_config namespace name) = configs.provider_config namespace name
answer_of configs (cluster_provider_config name) = configs.cluster_provider_config name

-- Where two states of the API server answer alike the config that a reference names, if it names
-- one, the reference resolves alike in both: only the config whose event requeues an object can
-- change what its reference resolves to, its Secrets and ConfigMaps aside.
pub resolve_ref-names :
    (reader : Reader) (before after : Configs) (ref : ProviderConfigRef)
    (namespace operator_namespace : String)
    → ((config : Config)
        → names config ref namespace ≡ true
        → answer_of before config ≡ answer_of after config)
    → resolve_ref reader before ref namespace operator_namespace
      ≡ resolve_ref reader after ref namespace operator_namespace
unfolding resolve_ref
resolve_ref-names reader before after ref namespace operator_namespace same =
    elim (Bool-cases (str_eq ref.kind "" || str_eq ref.kind "ProviderConfig")) [
      | inl local ↦
          rw
            (
              local,
              same (provider_config namespace ref.name)
                  (rw (local, eq_refl ref.name, eq_refl namespace) refl),
            )
            refl
      | inr other ↦ elim (Bool-cases (str_eq ref.kind "ClusterProviderConfig")) [
        | inl cluster ↦
            rw
              (
                other,
                cluster,
                same (cluster_provider_config ref.name) (rw (cluster, eq_refl ref.name) refl),
              )
              refl
        | inr unknown ↦ rw (other, unknown) refl
      ]
    ]
