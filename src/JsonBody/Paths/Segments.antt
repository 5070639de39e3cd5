-- ===== src/JsonBody/Paths/Segments.antt =====
-- Two paths overlap exactly if the segments of one start those of the other.
use text.Mathlib.Text.{starts_with}
use text.Mathlib.TextEquality.{starts_with_iff}
use text.Mathlib.TextLemmas.{append_assoc, cons-append, cons≢nil}
use signoz_operator.Prelude.{
  or_true, same_truth, String, ◌≡◌, ◌≢◌, ◌↔◌, ◌∙◌, inl, inr, refl, sym, ap, Bool, true, false, ◌&&◌,
  List, [], ◌∷◌, str_eq, eq_iff, eq_refl, join, Bool-cases,
}
use signoz_operator.JsonBody.Paths.{overlaps}
use signoz_operator.JsonBody.Paths.Dots.{
  ◌<>◌, dot, has_dot, dot_cons, first_dot, no_dot_in, shift, path, path-cons, path_one,
}

-- No segment is empty or holds a dot.
abbrev pub AreSegments : List String → Type 0
AreSegments [] = Unit {0}
AreSegments (s ∷ segments) = (s ≢ "") × (has_dot s ≡ false) × AreSegments segments

-- One list of segments starts the other.
abbrev pub related : List String → List String → Bool
related [] bs = true
related (a ∷ as_) [] = true
related (a ∷ as_) (b ∷ bs) = str_eq a b && related as_ bs

data Meets (x y : String) : Type 0 where
  same : x ≡ y → Meets x y
  below : (r : String) → x ≡ y <> String.◌∷◌ dot r → Meets x y
  above : (r : String) → y ≡ x <> String.◌∷◌ dot r → Meets x y

-- Two first segments that are the same.
first_same :
    (a b : String) (as_ bs : List String)
    → a ≡ b
    → related as_ bs ≡ true
    → related (a ∷ as_) (b ∷ bs) ≡ true
first_same a b as_ bs e h = rw (e, eq_refl b) h

module _ (a b : String) (ha : has_dot a ≡ false) (hb : has_dot b ≡ false) where
  -- What is left of two paths after the first segment.
  rest-Meets :
      (j k : String) → Meets (a <> String.◌∷◌ dot j) (b <> String.◌∷◌ dot k) → (a ≡ b) × Meets j k
  rest-Meets j k (same e) = let (p, q) = first_dot a b j k ha hb e in (p, same q)
  rest-Meets j k (below r e) =
      let (p, q) = first_dot a b j _ ha hb (e ∙ shift b k r) in (p, below r q)
  rest-Meets j k (above r e) =
      let (p, q) = first_dot b a k _ hb ha (e ∙ shift a j r) in (sym p, above r q)

  one-Meets : (k : String) → Meets a (b <> String.◌∷◌ dot k) → a ≡ b
  one-Meets k (same e) = absurd (no_dot_in b a k ha e)
  one-Meets k (below r e) = absurd (no_dot_in b a _ ha (e ∙ shift b k r))
  one-Meets k (above r e) = sym (first_dot b a k r hb ha e).0

  both-Meets : Meets a b → a ≡ b
  both-Meets (same e) = e
  both-Meets (below r e) = absurd (no_dot_in b a r ha e)
  both-Meets (above r e) = absurd (no_dot_in a b r hb e)

Meets-sym : {x y : String} → Meets x y → Meets y x
Meets-sym (same e) = same (sym e)
Meets-sym (below r e) = above r e
Meets-sym (above r e) = below r e

Meets-related :
    (a b : String) (as_ bs : List String)
    → AreSegments (a ∷ as_)
    → AreSegments (b ∷ bs)
    → Meets (path (a ∷ as_)) (path (b ∷ bs))
    → related (a ∷ as_) (b ∷ bs) ≡ true
Meets-related a b [] [] (_, ha, _) (_, hb, _) m =
    first_same a b [] [] (both-Meets a b ha hb (rw (path_one a, path_one b) at m)) refl
Meets-related a b [] (d ∷ ds) (_, ha, _) (_, hb, _) m =
    first_same a b [] (d ∷ ds) (one-Meets a b ha hb _ (rw (path_one a, path-cons b d ds) at m)) refl
Meets-related a b (c ∷ cs) [] (_, ha, _) (_, hb, _) m =
    first_same a b (c ∷ cs) []
      (sym (one-Meets b a hb ha _ (Meets-sym (rw (path_one b, path-cons a c cs) at m)))) refl
Meets-related a b (c ∷ cs) (d ∷ ds) (_, ha, as_ok) (_, hb, bs_ok) m =
    let (p, rest) = rest-Meets a b ha hb _ _ (rw (path-cons a c cs, path-cons b d ds) at m) in
    first_same a b (c ∷ cs) (d ∷ ds) p (Meets-related c d cs ds as_ok bs_ok rest)

first_of :
    (a b : String) (as_ bs : List String)
    → related (a ∷ as_) (b ∷ bs) ≡ true
    → (a ≡ b) × (related as_ bs ≡ true)
first_of a b as_ bs h = elim (Bool-cases (str_eq a b)) [
  | inl here ↦ ((eq_iff a b).0 here, rw here at h)
  | inr other ↦ cc (rw other at h)
]

Meets-within : (a j k : String) → Meets j k → Meets (a <> String.◌∷◌ dot j) (a <> String.◌∷◌ dot k)
Meets-within a j k (same e) = same (ap (λ t. a <> String.◌∷◌ dot t) e)
Meets-within a j k (below r e) = below r (ap (λ t. a <> String.◌∷◌ dot t) e ∙ sym (shift a k r))
Meets-within a j k (above r e) = above r (ap (λ t. a <> String.◌∷◌ dot t) e ∙ sym (shift a j r))

related-Meets :
    (a b : String) (as_ bs : List String)
    → related (a ∷ as_) (b ∷ bs) ≡ true
    → Meets (path (a ∷ as_)) (path (b ∷ bs))
unfolding join
related-Meets a b [] [] h = same (ap (λ s. path (s ∷ [])) (first_of a b [] [] h).0)
related-Meets a b [] (d ∷ ds) h =
    above (path (d ∷ ds)) (rw (sym (first_of a b [] (d ∷ ds) h).0) (path-cons a d ds))
related-Meets a b (c ∷ cs) [] h =
    below (path (c ∷ cs)) (rw (sym (first_of a b (c ∷ cs) [] h).0) (path-cons a c cs))
related-Meets a b (c ∷ cs) (d ∷ ds) h =
    let (p, rest) = first_of a b (c ∷ cs) (d ∷ ds) h in
    rw (path-cons a c cs, path-cons b d ds, sym p)
      (Meets-within a _ _ (related-Meets c d cs ds rest))

under_lem :
    (x y : String)
    → (starts_with x (y <> ".") ≡ true) ↔ ((r : String) × (x ≡ y <> String.◌∷◌ dot r))
under_lem x y = (
  λ h.
      let (r, e) = (starts_with_iff x (y <> ".")).0 h in
      (r, sym e ∙ append_assoc y "." r ∙ ap (λ t. y <> t) (dot_cons r)),
  λ h.
      (starts_with_iff x (y <> ".")).1
        (h.0, append_assoc y "." h.0 ∙ ap (λ t. y <> t) (dot_cons h.0) ∙ sym h.1),
)

ne_empty : (s : String) → s ≢ "" → str_eq s "" ≡ false
ne_empty s h = elim (Bool-cases (str_eq s "")) [
  | inl e ↦ absurd (h ((eq_iff s "").0 e))
  | inr other ↦ other
]

module _ (x y : String) (hx : x ≢ "") (hy : y ≢ "") where
  overlaps-Meets : overlaps x y ≡ true → Meets x y
  unfolding overlaps
  overlaps-Meets h = elim (Bool-cases (str_eq x y)) [
    | inl e ↦ same ((eq_iff x y).0 e)
    | inr other ↦ elim (Bool-cases (starts_with x (y <> "."))) [
      | inl under ↦ let (r, e) = (under_lem x y).0 under in below r e
      | inr not_under ↦
          let (r, e) =
            (under_lem y x).0 (rw (other, ne_empty x hx, ne_empty y hy, not_under) at h) in
          above r e
    ]
  ]

  Meets-overlaps : Meets x y → overlaps x y ≡ true
  unfolding overlaps
  Meets-overlaps (same e) = rw ((eq_iff x y).1 e) refl
  Meets-overlaps (below r e) = elim (Bool-cases (str_eq x y)) [
    | inl here ↦ rw here refl
    | inr other ↦ rw (other, ne_empty x hx, ne_empty y hy, (under_lem x y).1 (r, e)) refl
  ]
  Meets-overlaps (above r e) = elim (Bool-cases (str_eq x y)) [
    | inl here ↦ rw here refl
    | inr other ↦ rw (other, ne_empty x hx, ne_empty y hy, (under_lem y x).1 (r, e)) (or_true _)
  ]

path-ne_empty : (a : String) (as_ : List String) → a ≢ "" → path (a ∷ as_) ≢ ""
unfolding join
path-ne_empty a [] h = h
path-ne_empty String.[] (c ∷ cs) h = absurd (h refl)
path-ne_empty (String.◌∷◌ d a) (c ∷ cs) h =
    λ e. cons≢nil (sym (cons-append d a _) ∙ sym (path-cons _ c cs) ∙ e)

overlaps_root : (y : String) → overlaps "" y ≡ true
unfolding overlaps
overlaps_root y = elim (Bool-cases (str_eq "" y)) [ inl e ↦ rw e refl | inr other ↦ rw other refl ]

root_overlaps : (x : String) → overlaps x "" ≡ true
unfolding overlaps
root_overlaps x = elim (Bool-cases (str_eq x "")) [ inl e ↦ rw e refl | inr other ↦ rw other refl ]

-- On paths whose segments are not empty and hold no dot, `overlaps` is the test whether the segments
-- of one start those of the other: the paths are the same or one is an ancestor of the other. The
-- path of no segment, the root, overlaps every path.
pub overlaps-related :
    (xs ys : List String)
    → AreSegments xs
    → AreSegments ys
    → overlaps (join xs ".") (join ys ".") ≡ related xs ys
unfolding overlaps join
overlaps-related [] ys xs_ok ys_ok = overlaps_root _
overlaps-related (a ∷ as_) [] xs_ok ys_ok = root_overlaps (join (a ∷ as_) ".")
overlaps-related (a ∷ as_) (b ∷ bs) (ha, da, as_ok) (hb, db, bs_ok) =
    same_truth _ _
      (λ h.
        Meets-related a b as_ bs (ha, da, as_ok) (hb, db, bs_ok)
          (overlaps-Meets _ _ (path-ne_empty a as_ ha) (path-ne_empty b bs hb) h))
      (λ h.
        Meets-overlaps _ _ (path-ne_empty a as_ ha) (path-ne_empty b bs hb)
          (related-Meets a b as_ bs h))
