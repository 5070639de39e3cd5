-- ===== src/JsonBody/Value.antt =====
-- A decoded JSON value, as encoding/json gives it to an `any`: nil, bool, float64, string, []any and
-- map[string]any. A number is its shortest text, in which zero is "0". A map is a list of fields.
use signoz_operator.Prelude.{
  String, Bool, Option, none, some, [], ◌∷◌, Dict, str_eq, if◌then◌else◌, RawMessage,
}
use signoz_operator.Errors.{Result}
use signoz_operator.Adapters.Exchange.{Gjson}

mutual
  pub data Value : Type 0 where
    null : Value
    bool : Bool → Value
    number : String → Value
    text : String → Value
    array : Items → Value
    object : Fields → Value

  pub data Items : Type 0 where
    nil : Items
    item : Value → Items → Items

  pub data Fields : Type 0 where
    end : Fields
    field : String → Value → Fields → Fields

unfoldable pub lookup : String → Fields → Option Value
lookup k end = none
lookup k (field j v rest) = if str_eq j k then some v else lookup k rest

unfoldable pub fields_of : Dict Value → Fields
fields_of [] = end
fields_of ((k, v) ∷ rest) = field k v (fields_of rest)

-- The libraries: gjson with the decoded value of a result, encoding/json, and the hexadecimal
-- SHA-256 sum.
pub record JsonLibrary (J : Type 0) : Type 0 where
  pub gjson : Gjson J
  pub value : J → Value
  pub parse_bytes : RawMessage → J
  pub unmarshal : RawMessage → Result Value
  pub marshal : Value → Result RawMessage
  pub sha256_hex : RawMessage → String
