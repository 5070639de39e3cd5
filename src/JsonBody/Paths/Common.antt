-- ===== src/JsonBody/Paths/Common.antt =====
-- Which paths Intersect keeps.
use signoz_operator.Prelude.{
  String, ◌≡◌, ◌↔◌, ◌∙◌, sym, refl, arith, Bool, true, false, ◌&&◌, List, [], ◌∷◌, listed, str_eq,
  eq_iff, eq_refl, or_true, Bool-cases, inl, inr, if◌then◌else◌,
}
use signoz_operator.JsonBody.Paths.{overlaps, overlaps_any, intersect}

listed-intersect_any :
    (x y : List String) (path : String)
    → listed path (intersect x y) ≡ (listed path y && overlaps_any x path)
unfolding intersect
listed-intersect_any x [] path = refl
listed-intersect_any x (candidate ∷ y) path = elim (Bool-cases (str_eq candidate path)) [
  | inl here ↦
      let e : candidate ≡ path = (eq_iff candidate path).0 here in
      elim (Bool-cases (overlaps_any x path)) [
        | inl kept ↦ rw (e, kept) (ground (arith, eq_iff path path))
        | inr dropped ↦
            rw (e, dropped) (ground (arith, eq_iff path path, listed-intersect_any x y path))
      ]
  | inr other ↦ ground (arith, other, listed-intersect_any x y path)
]

and_parts : (a b : Bool) → (a && b) ≡ true → (a ≡ true) × (b ≡ true)
and_parts true b h = (refl, h)
and_parts false b h = cc h

either : (b : Bool) → (if b then true else true) ≡ true
either true = refl
either false = refl

overlapping :
    (x : List String) (path : String)
    → overlaps_any x path ≡ true
    → (z : String) × (listed z x ≡ true) × (overlaps path z ≡ true)
unfolding overlaps_any
overlapping [] path h = cc h
overlapping (z ∷ x) path h = elim (Bool-cases (overlaps path z)) [
  | inl here ↦ (z, rw (eq_refl z) refl, here)
  | inr other ↦
      let (w, is_listed, over) = overlapping x path (rw other at h) in
      (w, rw (is_listed, or_true (str_eq z w)) refl, over)
]

overlaps-overlaps_any :
    (x : List String) (path z : String)
    → listed z x ≡ true
    → overlaps path z ≡ true
    → overlaps_any x path ≡ true
unfolding overlaps_any
overlaps-overlaps_any [] path z is_listed over = cc is_listed
overlaps-overlaps_any (w ∷ x) path z is_listed over = elim (Bool-cases (str_eq w z)) [
  | inl same ↦ let e : w ≡ z = (eq_iff w z).0 same in rw (e, over) refl
  | inr other ↦
      rw (overlaps-overlaps_any x path z (rw other at is_listed) over) (either (overlaps path w))
]

-- A path is kept exactly if it is one of `y` and there is one in `x` that it overlaps.
pub listed-intersect :
    (x y : List String) (path : String)
    → (listed path (intersect x y) ≡ true)
      ↔ ((listed path y ≡ true) × ((z : String) × (listed z x ≡ true) × (overlaps path z ≡ true)))
listed-intersect x y path = (
  λ h.
      let (in_y, over) = and_parts (listed path y) _ (sym (listed-intersect_any x y path) ∙ h) in
      (in_y, overlapping x path over),
  λ (in_y, (z, in_x, over)).
      listed-intersect_any x y path ∙ rw (in_y, overlaps-overlaps_any x path z in_x over) refl,
)

-- Nothing overlaps no path.
pub intersect_none : (y : List String) → intersect [] y ≡ []
unfolding intersect overlaps_any
intersect_none [] = refl
intersect_none (c ∷ y) = intersect_none y
