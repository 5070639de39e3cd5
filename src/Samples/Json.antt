-- ===== src/Samples/Json.antt =====
-- A comparison of JSON values that meets what go-cmp documents, and the libraries over a desired and
-- a remote body.
use signoz_operator.Prelude.{
  and_true, ℕ, suc, String, ◌≡◌, refl, arith, Bool, true, false, Option, none, some, [], ◌∷◌, ℤ,
  str_eq, if◌then◌else◌, RawMessage,
}
use signoz_operator.Errors.{ok}
use signoz_operator.JsonBody.Value.{
  Value, null, bool, number, text, array, object, Items, nil, item, Fields, end, field, lookup,
  JsonLibrary,
}
use signoz_operator.JsonBody.Diff.{CmpPath, ignores, Comparer, report}
use signoz_operator.JsonBody.Diff.Agrees.{
  agrees, items_agree, fields_agree, rest_is_zero, IsComparison, equal_once, elements_equal,
  left_entries_equal, right_entries_equal, entry_equal,
}
use signoz_operator.JsonBody.Diff.Zeros.{is_deep_zero-held}
use signoz_operator.JsonBody.Diff.Bracketed.{IsReporting, told, over}
use signoz_operator.Objects.{Template}

-- It reports at most one difference, at the root.
abbrev pub comparer : Comparer
comparer = record {
  equal = λ f x y. agrees x y;
  events = λ f x y. report (agrees x y) ∷ [];
  itoa = λ i. "0";
}

abbrev at : CmpPath → Value → Value → Bool
at p x y = agrees x y

elements_agree :
    (p : CmpPath) (i : ℕ) (xs ys : Items) → items_agree xs ys ≡ elements_equal at p i xs ys
unfolding agrees
elements_agree p i nil nil = refl
elements_agree p i nil (item y ys) = refl
elements_agree p i (item x xs) nil = refl
elements_agree p i (item x xs) (item y ys) = rw (elements_agree p (suc i) xs ys) refl

entry_agrees :
    (p : CmpPath) (k : String) (v : Value) (o : Option Value)
    → elim o [ none ↦ false | some w ↦ agrees v w ] ≡ entry_equal at p k (some v) o
unfolding ignores
entry_agrees p k v none = refl
entry_agrees p k v (some w) = refl

left_agree : (p : CmpPath) (fs gs : Fields) → fields_agree fs gs ≡ left_entries_equal at p fs gs
unfolding agrees
left_agree p end gs = refl
left_agree p (field k v fs) gs = rw (entry_agrees p k v (lookup k gs), left_agree p fs gs) refl

right_agree : (p : CmpPath) (fs gs : Fields) → rest_is_zero fs gs ≡ right_entries_equal at p fs gs
unfolding rest_is_zero ignores
right_agree p fs end = refl
right_agree p fs (field k w gs) = ground (arith, is_deep_zero-held w, right_agree p fs gs)

agrees_once : (p : CmpPath) (x y : Value) → agrees x y ≡ equal_once at p x y
unfolding agrees
agrees_once p null null = refl
agrees_once p null (bool b) = refl
agrees_once p null (number b) = refl
agrees_once p null (text b) = refl
agrees_once p null (array b) = refl
agrees_once p null (object b) = refl
agrees_once p (bool a) null = refl
agrees_once p (bool a) (bool b) = refl
agrees_once p (bool a) (number b) = refl
agrees_once p (bool a) (text b) = refl
agrees_once p (bool a) (array b) = refl
agrees_once p (bool a) (object b) = refl
agrees_once p (number a) null = refl
agrees_once p (number a) (bool b) = refl
agrees_once p (number a) (number b) = refl
agrees_once p (number a) (text b) = refl
agrees_once p (number a) (array b) = refl
agrees_once p (number a) (object b) = refl
agrees_once p (text a) null = refl
agrees_once p (text a) (bool b) = refl
agrees_once p (text a) (number b) = refl
agrees_once p (text a) (text b) = refl
agrees_once p (text a) (array b) = refl
agrees_once p (text a) (object b) = refl
agrees_once p (array a) null = refl
agrees_once p (array a) (bool b) = refl
agrees_once p (array a) (number b) = refl
agrees_once p (array a) (text b) = refl
agrees_once p (array a) (array b) = elements_agree p 0 a b
agrees_once p (array a) (object b) = refl
agrees_once p (object a) null = refl
agrees_once p (object a) (bool b) = refl
agrees_once p (object a) (number b) = refl
agrees_once p (object a) (text b) = refl
agrees_once p (object a) (array b) = refl
agrees_once p (object a) (object b) = rw (left_agree p a b, right_agree p a b) refl

pub comparer-IsComparison : IsComparison comparer
comparer-IsComparison = record { at = at; equal_at_root = λ x y. refl; at_once = agrees_once }

pub comparer-IsReporting : IsReporting comparer
comparer-IsReporting = record {
  trace = λ x y. told (agrees x y) over;
  bracketed = λ x y. refl;
  complete = λ x y. and_true (agrees x y);
}

abbrev pub wanted : Value
wanted = object (field "name" (text "viewer") end)

-- The remote one has a default filled in.
abbrev pub answered : Value
answered = object (field "name" (text "viewer") (field "enabled" (bool false) end))

abbrev text_of : Value → String
text_of (text s) = s
text_of _ = ""

abbrev answer_at : RawMessage → String → Value
answer_at raw path =
    if str_eq path "data.id"
    then text "7"
    else if str_eq path "data"
    then answered
    else if str_eq path "description"
    then text "reads only"
    else null

abbrev is_there : Value → Bool
is_there null = false
is_there _ = true

abbrev pub library : JsonLibrary Value
library = record {
  gjson = record {
    get_bytes = answer_at;
    get = λ v k. null;
    exists = is_there;
    is_array = λ v. false;
    array = λ v. [];
    text = text_of;
    int = λ v. ℤ.pos 0;
    raw = λ v. "";
  };
  value = λ v. v;
  parse_bytes = λ raw. wanted;
  unmarshal = λ raw. ok wanted;
  marshal = λ v. ok "viewer";
  sha256_hex = λ s. s;
}

abbrev pub template : Template String
template = record { spec = some "viewer"; json_spec = none }
