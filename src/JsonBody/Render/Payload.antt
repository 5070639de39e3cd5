-- ===== src/JsonBody/Render/Payload.antt =====
-- What an update payload holds.
use signoz_operator.Prelude.{
  and_false, String, ◌≡◌, refl, arith, ◌∙◌, Bool, true, false, ◌&&◌, Option, none, some, List, [],
  ◌∷◌, Dict, get, put, get-put, str_eq, eq_iff, if◌then◌else◌, listed, RawMessage, Bool-cases, inl,
  inr,
}
use signoz_operator.JsonBody.Value.{Value, JsonLibrary}
use signoz_operator.JsonBody.Render.{payload}

module _ {J : Type 0} (lib : JsonLibrary J) (raw : RawMessage) where
  -- The value of a field of the body.
  abbrev pub value_at : String → Option Value
  value_at field =
      if lib.gjson.exists (lib.gjson.get_bytes raw field)
      then some (lib.value (lib.gjson.get_bytes raw field))
      else none

  if_same : {A : Type 0} (b : Bool) (a : A) → (if b && true then a else a) ≡ a
  if_same true a = refl
  if_same false a = refl

  get-payload_onto :
      (fields : List String) (filled : Dict Value) (field : String)
      → get (payload lib raw fields filled) field ≡ (
          if listed field fields && lib.gjson.exists (lib.gjson.get_bytes raw field)
          then value_at field
          else get filled field)
  unfolding payload
  get-payload_onto [] filled field = refl
  get-payload_onto (f ∷ fields) filled field =
      let v = lib.value (lib.gjson.get_bytes raw f) in
      elim (Bool-cases (lib.gjson.exists (lib.gjson.get_bytes raw f))) [
        | inl there ↦ elim (Bool-cases (str_eq f field)) [
          | inl same ↦
              let e : f ≡ field = (eq_iff f field).0 same in
              let found : lib.gjson.exists (lib.gjson.get_bytes raw field) ≡ true = rw e at there in
              rw (there, same, found)
                (get-payload_onto fields (put filled f v) field
                  ∙ rw (get-put filled f field v, same, found, e) (if_same (listed field fields) _))
          | inr other ↦
              rw (there, other)
                (get-payload_onto fields (put filled f v) field
                  ∙ rw (get-put filled f field v, other) refl)
        ]
        | inr absent ↦ elim (Bool-cases (str_eq f field)) [
          | inl same ↦
              let e : f ≡ field = (eq_iff f field).0 same in
              let missing : lib.gjson.exists (lib.gjson.get_bytes raw field) ≡ false =
                rw e at absent in
              rw (absent, same, missing)
                (get-payload_onto fields filled field ∙ rw missing (rw and_false refl))
          | inr other ↦ rw (absent, other) (get-payload_onto fields filled field)
        ]
      ]

  -- A payload has a field exactly if it is listed and the body has it, with the body's value.
  pub get-payload :
      (fields : List String) (field : String)
      → get (payload lib raw fields []) field
        ≡ (if listed field fields then value_at field else none)
  unfolding get
  get-payload fields field = get-payload_onto fields [] field ∙ ground arith
