-- ===== src/JsonBody/Paths.antt =====
-- Paths into a body, written with dots: overlaps and Intersect of internal/jsonbody/diff.go.
pub mod Dots
pub mod Segments
pub mod Common
use Prim.Native.String
use text.Mathlib.Text.{starts_with}
use signoz_operator.Prelude.{String, Bool, true, false, ◌||◌, List, [], ◌∷◌, str_eq, if◌then◌else◌}

-- strings.HasPrefix is the library's test.
unfoldable pub overlaps : String → String → Bool
overlaps x y =
    if str_eq x y || (str_eq x "" || str_eq y "")
    then true
    else starts_with x (String.◌++◌ y ".") || starts_with y (String.◌++◌ x ".")

-- The inner loop of Intersect, up to its break.
unfoldable pub overlaps_any : List String → String → Bool
overlaps_any [] candidate = false
overlaps_any (path ∷ x) candidate =
    let rest = overlaps_any x candidate in if overlaps candidate path then true else rest

unfoldable pub intersect : List String → List String → List String
intersect x [] = []
intersect x (candidate ∷ y) =
    let rest = intersect x y in if overlaps_any x candidate then candidate ∷ rest else rest
