-- ===== src/JsonBody/Render.antt =====
-- internal/jsonbody/render.go, extract.go and hash.go.
pub mod Payload
use signoz_operator.Prelude.{
  String, Bool, Option, none, some, List, [], ◌∷◌, Dict, put, str_eq, concat, if◌then◌else◌,
  RawMessage,
}
use signoz_operator.Errors.{Error, Result, ok, err, new, foreign, invalid_input}
use signoz_operator.JsonBody.Value.{Value, object, fields_of, JsonLibrary}

module _ {J : Type 0} (lib : JsonLibrary J) where
  verbatim : RawMessage → Result Value → Result RawMessage
  verbatim raw (ok v) = ok raw
  verbatim raw (err e) = err e

  -- Render, given what json.Marshal makes of the typed form.
  unfoldable pub render :
      {S : Type 0} → (S → Result RawMessage) → Option S → Option String → Result RawMessage
  unfolding verbatim
  render marshal_spec (some spec) json_spec = marshal_spec spec
  render marshal_spec none (some raw) = verbatim raw (lib.unmarshal raw)
  render marshal_spec none none =
      err (new invalid_input "exactly one of spec or jsonSpec must be set")

  unfoldable pub extract_string : RawMessage → String → Result String
  extract_string raw path =
      let value = lib.gjson.text (lib.gjson.get_bytes raw path) in
      if str_eq value "" then err (foreign (concat ("no value at " ∷ path ∷ []))) else ok value

  unfoldable pub extract_rendered : Result RawMessage → String → Result String
  extract_rendered (ok body) path = extract_string body path
  extract_rendered (err e) path = err e

  unfoldable pub extract_from_specs :
      {S : Type 0} → (S → Result RawMessage) → Option S → Option String → String → Result String
  extract_from_specs marshal_spec spec json_spec path =
      extract_rendered (render marshal_spec spec json_spec) path

  -- The loop of ExtractFields.
  unfoldable pub payload : RawMessage → List String → Dict Value → Dict Value
  payload raw [] filled = filled
  payload raw (field ∷ fields) filled =
      let value = lib.gjson.get_bytes raw field in
      payload raw fields
        (if lib.gjson.exists value then put filled field (lib.value value) else filled)

  -- A payload without fields is nil.
  unfoldable pub marshal_payload : Dict Value → Result RawMessage
  marshal_payload [] = ok ""
  marshal_payload (entry ∷ rest) = lib.marshal (object (fields_of (entry ∷ rest)))

  unfoldable pub extract_fields : RawMessage → List String → Result RawMessage
  extract_fields raw fields = marshal_payload (payload raw fields [])

  hash_value : Result Value → Result RawMessage
  hash_value (ok v) = lib.marshal v
  hash_value (err e) = err e

  hash_text : Result RawMessage → Result String
  hash_text (ok canonical) = ok (lib.sha256_hex canonical)
  hash_text (err e) = err e

  -- Hash, of the body as it is marshalled again after it was decoded.
  unfoldable pub hash : RawMessage → Result String
  unfolding hash_value hash_text
  hash body = hash_text (hash_value (lib.unmarshal body))
