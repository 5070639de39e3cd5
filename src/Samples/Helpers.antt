-- ===== src/Samples/Helpers.antt =====
-- The helpers of the API machinery on plain lists. They meet the documented laws.
use signoz_operator.Prelude.{
  ℕ, String, ◌≡◌, ◌≢◌, refl, arith, ap, eq_iff, str_eq, Bool, true, false, ◌||◌, Option, none, some,
  List, [], ◌∷◌, if◌then◌else◌, Bool-cases, inl, inr, eq_refl,
}
use signoz_operator.Kube.{Condition, Kube}
use signoz_operator.Kube.Laws.{SameCondition, IsConditionList}

unfoldable pub find : List Condition → String → Option Condition
find [] t = none
find (c ∷ cs) t = if str_eq c.type t then some c else find cs t

-- The condition found keeps the instant of its last transition.
abbrev merge : Condition → Condition → Condition
merge d c = record c { last_transition_time = d.last_transition_time }

unfoldable pub set : ℕ → List Condition → Condition → List Condition
set now [] c = c ∷ []
set now (d ∷ ds) c = if str_eq d.type c.type then merge d c ∷ ds else d ∷ set now ds c

unfoldable pub remove : List Condition → String → List Condition
remove [] t = []
remove (c ∷ cs) t = let rest = remove cs t in if str_eq c.type t then rest else c ∷ rest

unfoldable pub contains : List String → String → Bool
contains [] f = false
contains (g ∷ gs) f = str_eq g f || contains gs f

unfoldable pub without : List String → String → List String
without [] f = []
without (g ∷ gs) f = let rest = without gs f in if str_eq g f then rest else g ∷ rest

abbrev pub helpers : Kube
helpers = record {
  set_status_condition = set;
  remove_status_condition = remove;
  find_status_condition = find;
  contains_finalizer = contains;
  add_finalizer = λ fs f. if contains fs f then (fs, false) else (f ∷ fs, true);
  remove_finalizer = λ fs f. (without fs f, contains fs f);
}

find-set_self :
    (now : ℕ) (cs : List Condition) (c : Condition)
    → (d : Condition) × (find (set now cs c) c.type ≡ some d) × SameCondition d c
unfolding find set
find-set_self now [] c = (c, rw eq_refl, ground arith)
find-set_self now (d ∷ ds) c = elim (Bool-cases (str_eq d.type c.type)) [
  | inl here ↦ (merge d c, rw here (rw eq_refl), ground arith)
  | inr there ↦
      let (e, found, same) = find-set_self now ds c in (e, rw there (rw there found), same)
]

find-set_ne :
    (now : ℕ) (cs : List Condition) (c : Condition) (t : String)
    → c.type ≢ t
    → find (set now cs c) t ≡ find cs t
unfolding find set
find-set_ne now [] c t h = ground (arith, eq_iff c.type t)
find-set_ne now (d ∷ ds) c t h =
    ground (arith, eq_iff c.type t, eq_iff d.type c.type, eq_iff d.type t, find-set_ne now ds c t h)

find-remove_self : (cs : List Condition) (t : String) → find (remove cs t) t ≡ none
unfolding find remove
find-remove_self [] t = refl
find-remove_self (c ∷ cs) t = ground (arith, find-remove_self cs t)

find-remove_ne : (cs : List Condition) (t u : String) → t ≢ u → find (remove cs t) u ≡ find cs u
unfolding find remove
find-remove_ne [] t u h = refl
find-remove_ne (c ∷ cs) t u h =
    ground (arith, eq_iff t u, eq_iff c.type t, eq_iff c.type u, find-remove_ne cs t u h)

merge_same : (d c : Condition) → SameCondition d c → merge d c ≡ d
merge_same d c h = ground arith

set_same :
    (now : ℕ) (cs : List Condition) (c d : Condition)
    → find cs c.type ≡ some d
    → SameCondition d c
    → set now cs c ≡ cs
unfolding find set
set_same now [] c d h same = cc
set_same now (e ∷ es) c d h same = elim (Bool-cases (str_eq e.type c.type)) [
  | inl here ↦
      let found : e ≡ d = ground arith in
      rw here (ap (λ x. x ∷ es) (merge_same e c (rw found same)))
  | inr there ↦
      let found : find es c.type ≡ some d = ground arith in
      rw there (ap (λ x. e ∷ x) (set_same now es c d found same))
]

remove_absent : (cs : List Condition) (t : String) → find cs t ≡ none → remove cs t ≡ cs
unfolding find remove
remove_absent [] t h = refl
remove_absent (c ∷ cs) t h = ground (arith, remove_absent cs t)

pub helpers-IsConditionList : IsConditionList helpers
helpers-IsConditionList = record {
  find-set_self = find-set_self;
  find-set_ne = find-set_ne;
  find-remove_self = find-remove_self;
  find-remove_ne = find-remove_ne;
  set_same = set_same;
  remove_absent = remove_absent;
}

contains-without : (fs : List String) (f : String) → contains (without fs f) f ≡ false
unfolding contains without
contains-without [] f = refl
contains-without (g ∷ gs) f = ground (arith, contains-without gs f)

contains-without_ne :
    (fs : List String) (f g : String) → f ≢ g → contains (without fs f) g ≡ contains fs g
unfolding contains without
contains-without_ne [] f g h = refl
contains-without_ne (e ∷ es) f g h =
    ground (arith, eq_iff e f, eq_iff e g, eq_iff f g, contains-without_ne es f g h)
