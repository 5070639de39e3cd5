-- ===== src/Kube.antt =====
-- The Kubernetes API machinery that the operator builds on: the metadata and conditions of an
-- object, and the helpers of apimachinery's `meta` and controller-runtime's `controllerutil`, which
-- are parameters. An instant is a number, its zero time 0.
pub mod Laws
use signoz_operator.Prelude.{ℕ, String, Bool, Option, none, some, true, List, ◌==◌, Dict}

pub data ConditionStatus : Type 0 where
  condition_true condition_false condition_unknown : ConditionStatus

pub record Condition : Type 0 where
  pub type : String
  pub status : ConditionStatus
  pub reason : String
  pub message : String
  pub observed_generation : ℕ
  pub last_transition_time : ℕ

-- What the operator reads and writes of metav1.ObjectMeta.
pub record ObjectMeta : Type 0 where
  pub name : String
  pub namespace : String
  pub generation : ℕ
  pub deletion_timestamp : Option ℕ
  pub finalizers : List String
  pub annotations : Dict String

-- GetDeletionTimestamp().IsZero(), which a nil pointer answers too.
unfoldable pub is_zero_time : Option ℕ → Bool
is_zero_time none = true
is_zero_time (some t) = t == 0

-- The helpers. `set_status_condition` reads the clock, so it takes the instant; the finalizer
-- helpers return the finalizers of the changed object and whether they changed.
pub record Kube : Type 0 where
  pub set_status_condition : ℕ → List Condition → Condition → List Condition
  pub remove_status_condition : List Condition → String → List Condition
  pub find_status_condition : List Condition → String → Option Condition
  pub contains_finalizer : List String → String → Bool
  pub add_finalizer : List String → String → List String × Bool
  pub remove_finalizer : List String → String → List String × Bool
