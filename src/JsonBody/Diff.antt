-- ===== src/JsonBody/Diff.antt =====
-- internal/jsonbody/diff.go: what the comparison of go-cmp is given, a filter and a reporter, and
-- what the reporter collects. The comparison itself is a parameter. A path is kept newest step
-- first.
pub mod Zeros
pub mod Agrees
pub mod Bracketed
use signoz_operator.Prelude.{
  ℕ, String, Bool, true, false, not, ◌&&◌, Option, none, some, List, [], ◌∷◌, ◌++◌, ℤ, str_eq,
  if◌then◌else◌, join, is_negative,
}
use signoz_operator.JsonBody.Value.{
  Value, null, bool, number, text, array, object, Items, nil, item, Fields, end, field,
}

is_nil : Items → Bool
is_nil nil = true
is_nil (item v rest) = false

-- isDeepZero.
unfoldable mutual
  pub is_deep_zero : Value → Bool
  is_deep_zero null = true
  is_deep_zero (bool b) = not b
  is_deep_zero (number n) = str_eq n "0"
  is_deep_zero (text s) = str_eq s ""
  is_deep_zero (array nil) = true
  is_deep_zero (array (item v rest)) = false
  is_deep_zero (object fs) = all_deep_zero fs

  pub all_deep_zero : Fields → Bool
  all_deep_zero end = true
  all_deep_zero (field k v rest) = is_deep_zero v && all_deep_zero rest

-- The steps of cmp.Path that the code tells apart: an entry of a map with the values on both
-- sides, if they are there; an element of a slice with its index on both sides and each side, -1
-- where it is missing; and any other.
pub data PathStep : Type 0 where
  map_index : String → Option Value → Option Value → PathStep
  slice_index : ℤ → ℤ → ℤ → PathStep
  other_step : PathStep

abbrev pub CmpPath : Type 0
CmpPath = List PathStep

-- The filter of ignoreZeroOnlyInY, asked about the last step of a path.
unfoldable pub ignores : CmpPath → Bool
ignores (map_index k none (some v) ∷ steps) = is_deep_zero v
ignores _ = false

-- The calls of a cmp.Reporter: PushStep, Report with its Equal(), and PopStep.
pub data Event : Type 0 where
  push : PathStep → Event
  report : Bool → Event
  pop : Event

-- sliceKey.
unfoldable pub slice_key : ℤ → ℤ → ℤ → ℤ
slice_key key xkey ykey =
    if not (is_negative key) then key else if not (is_negative xkey) then xkey else ykey

-- strconv.Itoa is a parameter.
module _ (itoa : ℤ → String) where
  -- formatPath, whose segments come out oldest first.
  unfoldable pub segments : CmpPath → List String
  segments [] = []
  segments (map_index k x y ∷ steps) = segments steps ++ k ∷ []
  segments (slice_index key xkey ykey ∷ steps) =
      segments steps ++ itoa (slice_key key xkey ykey) ∷ []
  segments (other_step ∷ steps) = segments steps

  unfoldable pub format_path : CmpPath → String
  format_path steps = join (segments steps) "."

  pub record PathReporter : Type 0 where
    pub steps : CmpPath
    pub paths : List String

  tail : CmpPath → CmpPath
  tail [] = []
  tail (step ∷ steps) = steps

  unfoldable pub handle : PathReporter → Event → PathReporter
  unfolding tail
  handle r (push step) = record r { steps = step ∷ r.steps }
  handle r (report true) = r
  handle r (report false) = record r { paths = r.paths ++ format_path r.steps ∷ [] }
  handle r pop = record r { steps = tail r.steps }

  unfoldable pub run : PathReporter → List Event → PathReporter
  run r [] = r
  run r (e ∷ es) = run (handle r e) es

-- go-cmp: the result of cmp.Equal and the calls of its reporter, given a filter.
pub record Comparer : Type 0 where
  pub equal : (CmpPath → Bool) → Value → Value → Bool
  pub events : (CmpPath → Bool) → Value → Value → List Event
  pub itoa : ℤ → String

module _ (c : Comparer) where
  -- Equal and Diff.
  unfoldable pub equal : Value → Value → Bool
  equal x y = c.equal ignores x y

  unfoldable pub diff : Value → Value → List String
  diff x y = (run c.itoa (record { steps = []; paths = [] }) (c.events ignores x y)).paths
