-- ===== src/Controllers/Watches.antt =====
-- watches.go, providerconfig_watches.go and the watches of the two provider config controllers:
-- which objects an event requeues. What the cached client lists is a parameter.
pub mod Exact
pub mod Enough
use Prim.Native.String
use signoz_operator.Prelude.{
  String, Bool, true, false, not, Option, none, some, List, [], ◌∷◌, str_eq, if◌then◌else◌,
}
use signoz_operator.Errors.{Error, Result, ok, err}
use signoz_operator.Core.{ProviderConfigRef}

-- types.NamespacedName, in a reconcile.Request.
pub record Key : Type 0 where
  pub namespace : String
  pub name : String

-- client.MatchingFields with its one entry, and client.InNamespace if it is given.
pub record ListOptions : Type 0 where
  pub field : String
  pub value : String
  pub in_namespace : Option String

-- client.List followed by ExtractList, each of which may fail, and ObjectKeyFromObject.
pub record Lister (O : Type 0) : Type 0 where
  pub list : ListOptions → Result (Result (List O))
  pub key : O → Key

abbrev pub provider_config_ref_index : String
provider_config_ref_index = ".spec.providerConfigRef"

abbrev pub secret_refs_index : String
secret_refs_index = ".spec.secretRefs"

abbrev pub config_map_refs_index : String
config_map_refs_index = ".spec.configMapRefs"

unfoldable pub provider_config_ref_key : String → String → String
provider_config_ref_key kind name =
    String.◌++◌ (if str_eq kind "" then "ProviderConfig" else kind) (String.◌++◌ "/" name)

-- What indexProviderConfigRef indexes an object by.
unfoldable pub index_provider_config_ref : ProviderConfigRef → List String
index_provider_config_ref r = provider_config_ref_key r.kind r.name ∷ []

module _ {O : Type 0} (lister : Lister O) where
  pub keys : List O → List Key
  keys [] = []
  keys (item ∷ items) = lister.key item ∷ keys items

  -- A list that fails enqueues nothing.
  unfoldable pub requests_of : Result (Result (List O)) → List Key
  unfolding keys
  requests_of (ok (ok items)) = keys items
  requests_of (ok (err e)) = []
  requests_of (err e) = []

  unfoldable pub requests_matching : ListOptions → List Key
  requests_matching options = requests_of (lister.list options)

  -- enqueueReferencers, of the key of the object that the event is about.
  unfoldable pub enqueue_referencers : String → Bool → Key → List Key
  enqueue_referencers kind scoped obj = requests_matching (record {
    field = provider_config_ref_index;
    value = provider_config_ref_key kind obj.name;
    in_namespace = if scoped then some obj.namespace else none;
  })

  unfoldable pub watch_provider_configs : Key → List Key
  watch_provider_configs obj = enqueue_referencers "ProviderConfig" true obj

  unfoldable pub watch_cluster_provider_configs : Key → List Key
  watch_cluster_provider_configs obj = enqueue_referencers "ClusterProviderConfig" false obj

  -- The watch of a provider config on what it references.
  unfoldable pub watch_references : String → Key → List Key
  watch_references index obj =
      requests_matching
        (record { field = index; value = obj.name; in_namespace = some obj.namespace })

  -- That of a cluster-wide one, given the operator's namespace.
  unfoldable pub watch_cluster_references : String → String → Key → List Key
  watch_cluster_references operator_namespace index obj =
      if not (str_eq obj.namespace operator_namespace)
      then []
      else requests_matching (record { field = index; value = obj.name; in_namespace = none })
