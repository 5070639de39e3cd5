-- ===== src/Reconciler/Pinned.antt =====
-- The candidate that the annotation with the id pins.
use signoz_operator.Prelude.{
  String, ◌≡◌, arith, eq_iff, Option, none, some, List, [], ◌∷◌, true, Bool-cases, inl, inr, ◌↔◌,
  ap,
}
use signoz_operator.Errors.{Result, ok, err}
use signoz_operator.Core.{SigNozResource, get_id_from_signoz_resource}
use signoz_operator.Reconciler.New.{find_pinned, has_id}

abbrev pub Pin : Type 0
Pin = Option (record { resource : Option SigNozResource })

-- The candidate names the pinned id.
abbrev pub Names : String → Option SigNozResource → Type 0
Names pinned r = get_id_from_signoz_resource r ≡ ok pinned

-- `r` is the first of the candidates that names the id.
pub data IsFirst (pinned : String) (r : Option SigNozResource)
    : List (Option SigNozResource) → Type 0 where
  head : (rs : List (Option SigNozResource)) → Names pinned r → IsFirst pinned r (r ∷ rs)
  later :
      (q : Option SigNozResource) {rs : List (Option SigNozResource)}
      → ¬ Names pinned q
      → IsFirst pinned r rs
      → IsFirst pinned r (q ∷ rs)

abbrev pub NoneNames : String → List (Option SigNozResource) → Type 0
NoneNames pinned [] = Unit {0}
NoneNames pinned (r ∷ rs) = (¬ Names pinned r) × NoneNames pinned rs

-- What the search may answer: the first candidate with the id, or that none has it.
abbrev pub IsPinned : String → List (Option SigNozResource) → Pin → Type 0
IsPinned pinned rs none = NoneNames pinned rs
IsPinned pinned rs (some p) = IsFirst pinned p.resource rs

has_id_iff : (pinned : String) (id : Result String) → (has_id pinned id ≡ true) ↔ (id ≡ ok pinned)
unfolding has_id
has_id_iff pinned (ok id) =
    ((λ h. ap ok ((eq_iff id pinned).0 h)), λ p. ground (arith, eq_iff id pinned))
has_id_iff pinned (err e) = ((λ h. cc), λ p. cc)

later-IsPinned :
    (pinned : String) (r : Option SigNozResource) (rs : List (Option SigNozResource)) (p : Pin)
    → ¬ Names pinned r
    → IsPinned pinned rs p
    → IsPinned pinned (r ∷ rs) p
later-IsPinned pinned r rs none n h = (n, h)
later-IsPinned pinned r rs (some p) n h = later r n h

-- A search for a pinned id adopts the first candidate that names it, and answers none exactly if no
-- candidate names it.
pub find_pinned-IsPinned :
    (pinned : String) (rs : List (Option SigNozResource))
    → IsPinned pinned rs (find_pinned pinned rs)
unfolding find_pinned
find_pinned-IsPinned pinned [] = tt
find_pinned-IsPinned pinned (r ∷ rs) =
    elim (Bool-cases (has_id pinned (get_id_from_signoz_resource r))) [
      | inl here ↦ rw (here, IsPinned) (head rs ((has_id_iff pinned _).0 here))
      | inr there ↦ rw there (
          later-IsPinned pinned r rs _ (λ p. cc (there, (has_id_iff pinned _).1 p))
            (find_pinned-IsPinned pinned rs))
    ]
