-- ===== src/Kube/Laws.antt =====
-- What the documentation of the API machinery says of its helpers.
use signoz_operator.Prelude.{ℕ, String, ◌≡◌, ◌≢◌, true, false, not, none, some, List}
use signoz_operator.Kube.{Condition, Kube}

-- A condition found, with the instant of its last transition left to the library.
pub record SameCondition (c d : Condition) : Type 0 where
  pub type : c.type ≡ d.type
  pub status : c.status ≡ d.status
  pub reason : c.reason ≡ d.reason
  pub message : c.message ≡ d.message
  pub observed_generation : c.observed_generation ≡ d.observed_generation

module _ (kube : Kube) where
  open kube use {
    set_status_condition as set, remove_status_condition as remove, find_status_condition as find,
  }

  -- A condition that is set is found with the fields given, one that is removed is not found,
  -- and the conditions of the other types stay.
  pub record IsConditionList : Type 0 where
    pub find-set_self :
        (now : ℕ) (cs : List Condition) (c : Condition)
        → (d : Condition) × (find (set now cs c) c.type ≡ some d) × SameCondition d c
    pub find-set_ne :
        (now : ℕ) (cs : List Condition) (c : Condition) (t : String)
        → c.type ≢ t
        → find (set now cs c) t ≡ find cs t
    pub find-remove_self : (cs : List Condition) (t : String) → find (remove cs t) t ≡ none
    pub find-remove_ne :
        (cs : List Condition) (t u : String) → t ≢ u → find (remove cs t) u ≡ find cs u
    -- Setting what is there already, or removing what is not, changes nothing.
    pub set_same :
        (now : ℕ) (cs : List Condition) (c d : Condition)
        → find cs c.type ≡ some d
        → SameCondition d c
        → set now cs c ≡ cs
    pub remove_absent : (cs : List Condition) (t : String) → find cs t ≡ none → remove cs t ≡ cs

  pub record IsFinalizerSet : Type 0 where
    pub contains-add :
        (fs : List String) (f : String)
        → kube.contains_finalizer (kube.add_finalizer fs f).0 f ≡ true
    pub add_changed :
        (fs : List String) (f : String)
        → (kube.add_finalizer fs f).1 ≡ not (kube.contains_finalizer fs f)
    pub contains-remove :
        (fs : List String) (f : String)
        → kube.contains_finalizer (kube.remove_finalizer fs f).0 f ≡ false
    pub remove_changed :
        (fs : List String) (f : String)
        → (kube.remove_finalizer fs f).1 ≡ kube.contains_finalizer fs f
    pub contains-remove_ne :
        (fs : List String) (f g : String)
        → f ≢ g
        → kube.contains_finalizer (kube.remove_finalizer fs f).0 g ≡ kube.contains_finalizer fs g
