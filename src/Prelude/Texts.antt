-- ===== src/Prelude/Texts.antt =====
-- Texts: what the program uses of Go's strings, and its format verbs and JSON bytes.
use Prim.Native.Nat.{ℕ}
use Prim.Native.String
use Prim.Native.String.{String}
use mathlib.Core.List.{List, [], ◌∷◌}
use mathlib.Core.Option.{Option}
use mathlib.Core.Logic.{inl, inr, ◌≢◌}
use mathlib.Core.Path.{◌≡◌}
use mathlib.Core.Bool.{Bool, false, ◌||◌}
use text.Mathlib.Text.{◌==◌}
use signoz_operator.Prelude.Tests.{Bool-cases}
pub use text.Mathlib.Text.{◌==◌ as str_eq}
pub use text.Mathlib.TextEquality.{eq_iff}
pub use text.Mathlib.TextPositions.{eq_refl}

unfoldable pub String_discrete : Discrete String
unfolding Bool-cases
String_discrete s t = elim (Bool-cases (s == t)) [
  | inl same ↦ yes ((eq_iff s t).0 same)
  | inr other ↦ no (λ p. cc (other, (eq_iff s t).1 p))
]

pub text_ne : (s t : String) → (s == t) ≡ false → s ≢ t
text_ne s t h p = cc (h, (eq_iff s t).1 p)

-- The pieces of a format string and its arguments, one after the other.
unfoldable pub concat : List String → String
concat [] = ""
concat (s ∷ ss) = String.◌++◌ s (concat ss)

-- strings.Join.
unfoldable pub join : List String → String → String
join [] sep = ""
join (s ∷ []) sep = s
join (s ∷ t ∷ ss) sep = String.◌++◌ s (String.◌++◌ sep (join (t ∷ ss) sep))

abbrev pub listed : String → List String → Bool
listed s [] = false
listed s (t ∷ ts) = t == s || listed s ts

-- json.RawMessage; a nil slice is the empty text.
abbrev pub RawMessage : Type 0
RawMessage = String

-- The library routines that turn values into text: the verbs %d and %q, the layout RFC 3339 of an
-- instant, and json.Compact, which fails on what is no JSON.
pub record Formatting : Type 0 where
  pub decimal : ℕ → String
  pub quote : String → String
  pub rfc3339 : ℕ → String
  pub compact : RawMessage → Option String
