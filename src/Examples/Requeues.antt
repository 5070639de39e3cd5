-- ===== src/Examples/Requeues.antt =====
-- The theorems on the watches, at concrete inputs.
use signoz_operator.Prelude.{◌≡◌, refl, [], ◌∷◌, List, inl, inr, ◌&&◌, listed, true}
use signoz_operator.Errors.{ok}
use signoz_operator.Core.{ProviderConfigRef}
use signoz_operator.ProviderConfig.Refs.{resolve_ref}
use signoz_operator.Controllers.Watches.{Key, Lister, keys, index_provider_config_ref}
use signoz_operator.Controllers.Watches.Exact.{
  Config, provider_config, cluster_provider_config, names, select, in_namespace, IsKnownKind,
  IsIndexed, requeued, requeued-names,
}
use signoz_operator.Controllers.Watches.Enough.{answer_of, resolve_ref-names}
use signoz_operator.Samples.Configs.{reader, configs, other_configs}

-- Two objects of different namespaces that name "prod", by its default kind and as a cluster-wide
-- config.
pub data Sample : Type 0 where
  local shared : Sample

abbrev ref_of : Sample → ProviderConfigRef
ref_of local = record { name = "prod"; kind = "" }
ref_of shared = record { name = "prod"; kind = "ClusterProviderConfig" }

abbrev sample_key : Sample → Key
sample_key local = record { namespace = "team"; name = "viewer" }
sample_key shared = record { namespace = "ops"; name = "viewer" }

abbrev samples : List Sample
samples = local ∷ shared ∷ []

abbrev lister : Lister Sample
lister = record {
  list = λ o. ok (
      ok (
        select
          (λ s.
            listed o.value (index_provider_config_ref (ref_of s))
            && in_namespace o.in_namespace (sample_key s).namespace)
          samples));
  key = sample_key;
}

lister-IsIndexed : IsIndexed lister ref_of samples
lister-IsIndexed value namespace = refl

ref_of-IsKnownKind : (s : Sample) → IsKnownKind (ref_of s).kind
ref_of-IsKnownKind local = inl refl
ref_of-IsKnownKind shared = inr (inr refl)

requeued-names_example :
    requeued lister ref_of (provider_config "team" "prod")
    ≡ keys lister (
        select
          (λ s. names (provider_config "team" "prod") (ref_of s) (sample_key s).namespace)
          samples)
requeued-names_example =
    requeued-names lister ref_of samples (provider_config "team" "prod") lister-IsIndexed
      ref_of-IsKnownKind

-- The two states differ in the cluster-wide configs, which the reference does not name.
same_prod :
    (config : Config)
    → names config (ref_of local) "team" ≡ true
    → answer_of configs config ≡ answer_of other_configs config
same_prod (provider_config namespace name) h = refl
same_prod (cluster_provider_config name) h = cc h

resolve_ref-names_example :
    resolve_ref reader configs (ref_of local) "team" "signoz-operator-system"
    ≡ resolve_ref reader other_configs (ref_of local) "team" "signoz-operator-system"
resolve_ref-names_example =
    resolve_ref-names reader configs other_configs (ref_of local) "team" "signoz-operator-system"
      same_prod
