-- ===== src/Specs.antt =====
-- The typed specs of the kinds (api/resources/v1alpha1/zz_generated_*_types.go) and the JSON that
-- their struct tags say. encoding/json turns a value into text.
pub mod Kinds
pub mod NotificationChannel
pub mod SavedView
pub mod Rule
pub mod Dashboard
pub mod Covered
use signoz_operator.Prelude.{
  String, Bool, true, false, not, Option, none, some, List, [], ◌∷◌, Dict, str_eq, if◌then◌else◌,
}
use signoz_operator.JsonBody.Value.{
  Value, null, bool, number, text, array, object, Items, nil, item, Fields, end, field,
}

-- A field tagged omitempty, given whether its value is empty.
unfoldable pub omitempty : Bool → String → Value → Fields → Fields
omitempty empty k v rest = if empty then rest else field k v rest

abbrev pub omit_text : String → String → Fields → Fields
omit_text k s rest = omitempty (str_eq s "") k (text s) rest

abbrev pub omit_bool : String → Bool → Fields → Fields
omit_bool k b rest = omitempty (not b) k (bool b) rest

abbrev pub is_empty {ℓ} : {A : Type ℓ} → List A → Bool
is_empty [] = true
is_empty (x ∷ xs) = false

pub texts : List String → Items
texts [] = nil
texts (s ∷ ss) = item (text s) (texts ss)

pub text_map : Dict String → Fields
text_map [] = end
text_map ((k, s) ∷ m) = field k (text s) (text_map m)

abbrev pub omit_texts : String → List String → Fields → Fields
omit_texts k ss rest = omitempty (is_empty ss) k (array (texts ss)) rest

abbrev pub omit_text_map : String → Dict String → Fields → Fields
omit_text_map k m rest = omitempty (is_empty m) k (object (text_map m)) rest

-- A slice that is not omitted: nil is null.
abbrev pub slice : Option (List String) → Value
slice none = null
slice (some ss) = array (texts ss)

-- A pointer to a struct, by the struct's fields.
abbrev pub omit_pointer : {A : Type 0} → (A → Fields) → String → Option A → Fields → Fields
omit_pointer fields k none rest = omitempty true k null rest
omit_pointer fields k (some a) rest = omitempty false k (object (fields a)) rest

-- An int64 or a float64 by its shortest text, as in a JSON value.
abbrev pub Number : Type 0
Number = String

-- A struct's object from the entries of its fields in their order.
unfoldable pub build : List (Fields → Fields) → Fields
build [] = end
build (entry ∷ entries) = entry (build entries)

abbrev pub text_entry : String → String → Fields → Fields
text_entry k s rest = field k (text s) rest

abbrev pub number_entry : String → Number → Fields → Fields
number_entry k n rest = field k (number n) rest

abbrev pub omit_number : String → Number → Fields → Fields
omit_number k n rest = omitempty (str_eq n "0") k (number n) rest

-- Pointers to scalars, and a raw JSON value.
abbrev pub omit_text_pointer : String → Option String → Fields → Fields
omit_text_pointer k none rest = omitempty true k null rest
omit_text_pointer k (some s) rest = omitempty false k (text s) rest

abbrev pub omit_number_pointer : String → Option Number → Fields → Fields
omit_number_pointer k none rest = omitempty true k null rest
omit_number_pointer k (some n) rest = omitempty false k (number n) rest

abbrev pub omit_bool_pointer : String → Option Bool → Fields → Fields
omit_bool_pointer k none rest = omitempty true k null rest
omit_bool_pointer k (some b) rest = omitempty false k (bool b) rest

abbrev pub omit_json : String → Option Value → Fields → Fields
omit_json k none rest = omitempty true k null rest
omit_json k (some v) rest = omitempty false k v rest

-- Structs, and slices and maps of them.
module _ {A : Type 0} (fields : A → Fields) where
  abbrev pub object_entry : String → A → Fields → Fields
  object_entry k a rest = field k (object (fields a)) rest

  pub objects : List A → Items
  objects [] = nil
  objects (a ∷ as_) = item (object (fields a)) (objects as_)

  pub object_map : Dict A → Fields
  object_map [] = end
  object_map ((k, a) ∷ m) = field k (object (fields a)) (object_map m)

  abbrev pub omit_objects : String → List A → Fields → Fields
  omit_objects k as_ rest = omitempty (is_empty as_) k (array (objects as_)) rest

  abbrev pub objects_of : Option (List A) → Value
  objects_of none = null
  objects_of (some as_) = array (objects as_)

  abbrev pub objects_entry : String → Option (List A) → Fields → Fields
  objects_entry k as_ rest = field k (objects_of as_) rest

  abbrev pub object_map_of : Option (Dict A) → Value
  object_map_of none = null
  object_map_of (some m) = object (object_map m)

  abbrev pub object_map_entry : String → Option (Dict A) → Fields → Fields
  object_map_entry k m rest = field k (object_map_of m) rest
