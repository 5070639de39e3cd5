-- ===== src/JsonBody/Paths/Dots.antt =====
-- Texts without dots, as the segments of a path.
use Prim.Native.Char.{Char, code}
use Prim.Native.String
use text.Mathlib.TextLemmas.{append_assoc, cons-eq-cons, nil-append, cons-append}
use signoz_operator.Prelude.{
  String, ◌≡◌, ◌≢◌, ◌∙◌, refl, sym, ap, arith, Bool, true, false, ◌||◌, List, [], ◌∷◌, join, ◌==◌,
}

infixr 66 ◌<>◌
abbrev pub ◌<>◌ : String → String → String
s <> t = String.◌++◌ s t

abbrev pub dot : Char
dot = "."

abbrev is_dot : Char → Bool
is_dot c = code c == 46

unfoldable pub has_dot : String → Bool
has_dot String.[] = false
has_dot (String.◌∷◌ c s) = is_dot c || has_dot s

pub dot_cons : (u : String) → "." <> u ≡ String.◌∷◌ dot u
dot_cons u = cons-append dot "" u ∙ ap (String.◌∷◌ dot) (nil-append u)

pub has_dot-append : (b u : String) → has_dot (b <> String.◌∷◌ dot u) ≡ true
unfolding has_dot
has_dot-append String.[] u = rw (nil-append (String.◌∷◌ dot u)) refl
has_dot-append (String.◌∷◌ c b) u =
    rw (cons-append c b (String.◌∷◌ dot u)) (ground (arith, has_dot-append b u))

pub not_dot : (c : Char) (s : String) → has_dot (String.◌∷◌ c s) ≡ false → c ≢ dot
unfolding has_dot
not_dot c s h e = cc (rw e at h)

pub dots_apart : (c : Char) (s : String) → has_dot (String.◌∷◌ c s) ≡ false → has_dot s ≡ false
unfolding has_dot
dots_apart c s h = ground (arith, h)

pub first_dot :
    (a b u v : String)
    → has_dot a ≡ false
    → has_dot b ≡ false
    → a <> String.◌∷◌ dot u ≡ b <> String.◌∷◌ dot v
    → (a ≡ b) × (u ≡ v)
first_dot String.[] String.[] u v ha hb e = (
  refl,
  (cons-eq-cons.0 (rw (nil-append (String.◌∷◌ dot u), nil-append (String.◌∷◌ dot v)) at e)).1,
)
first_dot String.[] (String.◌∷◌ c b) u v ha hb e = absurd (
    not_dot c b hb (
      sym
        (cons-eq-cons.0
          (rw (nil-append (String.◌∷◌ dot u), cons-append c b (String.◌∷◌ dot v)) at e)).0))
first_dot (String.◌∷◌ c a) String.[] u v ha hb e = absurd (
    not_dot c a ha (
      (cons-eq-cons.0
        (rw (nil-append (String.◌∷◌ dot v), cons-append c a (String.◌∷◌ dot u)) at e)).0))
first_dot (String.◌∷◌ c a) (String.◌∷◌ d b) u v ha hb e =
    let (heads, tails) =
      cons-eq-cons.0
        (rw (cons-append d b (String.◌∷◌ dot v), cons-append c a (String.◌∷◌ dot u)) at e) in
    let (same, rest) = first_dot a b u v (dots_apart c a ha) (dots_apart d b hb) tails in
    (cc (heads, same), rest)

pub no_dot_in : (a b u : String) → has_dot b ≡ false → b ≡ a <> String.◌∷◌ dot u → ⊥
no_dot_in a b u h e =
    let found : false ≡ true = sym h ∙ ap has_dot e ∙ has_dot-append a u in cc found

pub shift :
    (b k r : String)
    → (b <> String.◌∷◌ dot k) <> String.◌∷◌ dot r ≡ b <> String.◌∷◌ dot (k <> String.◌∷◌ dot r)
shift b k r =
    append_assoc b (String.◌∷◌ dot k) (String.◌∷◌ dot r)
    ∙ ap (λ t. b <> t) (cons-append dot k (String.◌∷◌ dot r))

abbrev pub path : List String → String
path segments = join segments "."

pub path-cons :
    (a c : String) (cs : List String) → path (a ∷ c ∷ cs) ≡ a <> String.◌∷◌ dot (path (c ∷ cs))
unfolding join
path-cons a c cs = ap (λ t. a <> t) (dot_cons (join (c ∷ cs) "."))

pub path_one : (a : String) → path (a ∷ []) ≡ a
unfolding join
path_one a = refl
