-- ===== src/Core.antt =====
-- api/resources/v1alpha1/core.go: the spec and the status that every mirrored kind shares, the
-- annotations and the finalizer, and the id of a SigNoz object. A pointer that may be nil is an
-- `Option`, a *metav1.Duration an `Option ℤ` of nanoseconds.
use signoz_operator.Prelude.{
  ℕ, String, Bool, Option, none, some, List, [], ◌∷◌, ℤ, str_eq, if◌then◌else◌, ℕ_discrete,
  String_discrete,
}
use signoz_operator.Errors.{Result, ok, err, foreign}
use signoz_operator.Kube.{Condition}

abbrev pub annotation_create_attempt : String
annotation_create_attempt = "resources.signoz.io/create-attempt"

abbrev pub annotation_signoz_resource_id : String
annotation_signoz_resource_id = "resources.signoz.io/signoz-resource-id"

abbrev pub resource_finalizer : String
resource_finalizer = "resources.signoz.io/finalizer"

-- ReclaimPolicy is an open string: the schema admits the two named values, an object written
-- before a default applied may hold another.
abbrev pub ReclaimPolicy : Type 0
ReclaimPolicy = String

abbrev pub reclaim_delete : ReclaimPolicy
reclaim_delete = "Delete"

abbrev pub reclaim_orphan : ReclaimPolicy
reclaim_orphan = "Orphan"

pub record ProviderConfigRef : Type 0 where
  pub name : String
  pub kind : String

pub record CoreSpec : Type 0 where
  pub provider_config_ref : ProviderConfigRef
  pub interval : Option ℤ
  pub retry_interval : Option ℤ
  pub timeout : Option ℤ
  pub suspend : Bool
  pub reclaim_policy : ReclaimPolicy

pub record SigNozResource : Type 0 where
  pub id : Option String

pub record CoreStatus : Type 0 where
  pub conditions : List Condition
  pub signoz_resource : Option SigNozResource
  pub observed_generation : ℕ
  pub observed_hash : String
  pub reconciled_at : ℕ

id_of : Option String → Result String
id_of none = err (foreign "signozResource carries no id")
id_of (some id) = if str_eq id "" then err (foreign "signozResource carries no id") else ok id

unfoldable pub get_id_from_signoz_resource : Option SigNozResource → Result String
unfolding id_of
get_id_from_signoz_resource none = err (foreign "signozResource carries no id")
get_id_from_signoz_resource (some r) = id_of r.id

prepend_id : Result String → List String → List String
prepend_id (ok id) ids = id ∷ ids
prepend_id (err e) ids = ids

unfoldable pub get_ids_from_signoz_resources : List (Option SigNozResource) → List String
unfolding get_id_from_signoz_resource prepend_id
get_ids_from_signoz_resources [] = []
get_ids_from_signoz_resources (r ∷ rs) =
    prepend_id (get_id_from_signoz_resource r) (get_ids_from_signoz_resources rs)

-- Semantic.DeepEqual on the status: equality, decided.
unfoldable pub CoreStatus-discrete : Discrete CoreStatus
CoreStatus-discrete = hlevel (ℕ_discrete, String_discrete)
