-- ===== src/Objects/Update.antt =====
-- What the update of a generated object sends, and where its requests go.
use Prim.Native.String
use signoz_operator.Prelude.{
  String, ◌≡◌, refl, arith, ◌∙◌, Bool, true, false, not, ◌&&◌, none, some, List, [], ◌∷◌, Dict, get,
  listed, str_eq, eq_iff, RawMessage, Bool-cases, inl, inr,
}
use signoz_operator.Errors.{Result, ok, err}
use signoz_operator.Core.{SigNozResource, get_id_from_signoz_resource}
use signoz_operator.JsonBody.Value.{Value, object, fields_of, JsonLibrary}
use signoz_operator.JsonBody.Diff.{Comparer}
use signoz_operator.JsonBody.Render.{payload, marshal_payload, extract_fields, extract_string}
use signoz_operator.JsonBody.Render.Payload.{value_at, get-payload}
use signoz_operator.Objects.{
  Generated, Template, body, update_of, item_path, id_or_empty, to_resource,
}
use signoz_operator.Objects
use signoz_operator.Objects.Kinds.{
  ResourceKind, generated, auth_domain, dashboard, notification_channel, planned_maintenance, role,
  route_policy, rule, saved_view, service_account, user,
}

-- No text is in both lists.
abbrev disjoint : List String → List String → Bool
disjoint [] ys = true
disjoint (x ∷ xs) ys = not (listed x ys) && disjoint xs ys

listed-disjoint :
    (xs ys : List String) (s : String)
    → disjoint xs ys ≡ true
    → listed s xs ≡ true
    → listed s ys ≡ false
listed-disjoint [] ys s apart h = cc h
listed-disjoint (x ∷ xs) ys s apart h = elim (Bool-cases (str_eq x s)) [
  | inl same ↦
      let e : x ≡ s = (eq_iff x s).0 same in
      rw e at (let out : listed x ys ≡ false = ground (arith, apart) in out)
  | inr other ↦ listed-disjoint xs ys s (ground (arith, apart)) (rw other at h)
]

generated-disjoint :
    (k : ResourceKind)
    → disjoint (generated k).immutable_fields (generated k).updatable_fields ≡ true
generated-disjoint auth_domain = refl
generated-disjoint dashboard = refl
generated-disjoint notification_channel = refl
generated-disjoint planned_maintenance = refl
generated-disjoint role = refl
generated-disjoint route_policy = refl
generated-disjoint rule = refl
generated-disjoint saved_view = refl
generated-disjoint service_account = refl
generated-disjoint user = refl

-- The text of a payload: nil if it has no field, and otherwise what json.Marshal makes of its object.
abbrev pub IsText : {J : Type 0} → JsonLibrary J → Dict Value → RawMessage → Type 0
IsText lib [] sent = sent ≡ ""
IsText lib (entry ∷ rest) sent = lib.marshal (object (fields_of (entry ∷ rest))) ≡ ok sent

-- An update for this body sends the fields that an update may set, each as the body has it, and
-- none that may only be set at create.
pub record Sends {J : Type 0} (lib : JsonLibrary J) (g : Generated) (body sent : RawMessage)
    : Type 0 where
  pub fields : Dict Value
  pub text_of_fields : IsText lib fields sent
  pub updatable :
      (field : String)
      → listed field g.updatable_fields ≡ true
      → get fields field ≡ value_at lib body field
  pub other : (field : String) → listed field g.updatable_fields ≡ false → get fields field ≡ none
  pub immutable :
      (field : String) → listed field g.immutable_fields ≡ true → get fields field ≡ none

marshal_payload-IsText :
    {J : Type 0} (lib : JsonLibrary J) (fields : Dict Value) (sent : RawMessage)
    → marshal_payload lib fields ≡ ok sent
    → IsText lib fields sent
unfolding marshal_payload
marshal_payload-IsText lib [] sent h = cc h
marshal_payload-IsText lib (entry ∷ rest) sent h = h

payload-Sends :
    {J : Type 0} (lib : JsonLibrary J) (k : ResourceKind) (body sent : RawMessage)
    → extract_fields lib body (generated k).updatable_fields ≡ ok sent
    → Sends lib (generated k) body sent
unfolding extract_fields
payload-Sends lib k body sent h = record {
  fields = payload lib body (generated k).updatable_fields [];
  text_of_fields = marshal_payload-IsText lib _ sent h;
  updatable = λ field is_listed.
      get-payload lib body (generated k).updatable_fields field ∙ rw is_listed refl;
  other =
      λ field absent. get-payload lib body (generated k).updatable_fields field ∙ rw absent refl;
  immutable = λ field is_listed.
      get-payload lib body (generated k).updatable_fields field
      ∙ rw (listed-disjoint _ _ field (generated-disjoint k) is_listed) refl;
}

update_of-Sends :
    {J S : Type 0} (lib : JsonLibrary J) (cmp : Comparer) (marshal_spec : S → Result RawMessage)
    (k : ResourceKind) (answer : Result RawMessage) (sent : RawMessage)
    → update_of lib cmp marshal_spec (generated k).updatable_fields answer ≡ ok sent
    → (rendered : RawMessage) × (answer ≡ ok rendered) × Sends lib (generated k) rendered sent
unfolding update_of
update_of-Sends lib cmp marshal_spec k (ok rendered) sent h =
    (rendered, refl, payload-Sends lib k rendered sent h)
update_of-Sends lib cmp marshal_spec k (err e) sent h = cc h

-- For each of the ten kinds, what ToUpdate gives for an update is nil or the JSON of an object that
-- has of each field that an update may set what the body has of it, and no other field: none that
-- may only be set at create.
pub to_update-Sends :
    {J S : Type 0} (lib : JsonLibrary J) (cmp : Comparer) (marshal_spec : S → Result RawMessage)
    (k : ResourceKind) (t : Template S) (sent : RawMessage)
    → (Objects.object lib cmp marshal_spec (generated k)).to_update t ≡ ok sent
    → (rendered : RawMessage) × (body lib cmp marshal_spec t ≡ ok rendered)
      × Sends lib (generated k) rendered sent
to_update-Sends lib cmp marshal_spec k t sent h =
    update_of-Sends lib cmp marshal_spec k (body lib cmp marshal_spec t) sent h

module _ {J S : Type 0} (lib : JsonLibrary J) (cmp : Comparer)
    (marshal_spec : S → Result RawMessage) (g : Generated) where
  resource-id :
      (id : Result String) (r : SigNozResource)
      → to_resource id ≡ ok r
      → (text : String) × (id ≡ ok text) × (r ≡ record { id = some text })
  unfolding to_resource
  resource-id (ok text) r h = (text, refl, cc h)
  resource-id (err e) r h = cc h

  extracted-ne_empty :
      (response : RawMessage) (path text : String)
      → extract_string lib response path ≡ ok text
      → str_eq text "" ≡ false
  unfolding extract_string
  extracted-ne_empty response path text h =
      elim (Bool-cases (str_eq (lib.gjson.text (lib.gjson.get_bytes response path)) "")) [
        | inl empty ↦ cc (rw empty at h)
        | inr found ↦
            let same : lib.gjson.text (lib.gjson.get_bytes response path) ≡ text =
              cc (rw found at h) in
            rw same at found
      ]

  -- What a create response records reads back: the recorded resource has the id that the response
  -- carries, and the read, update and delete requests of the object all go to that id below the
  -- collection.
  pub to_resource-read :
      (response : RawMessage) (r : SigNozResource)
      → (Objects.object lib cmp marshal_spec g).to_signoz_resource response ≡ ok r
      → (id : String) × (get_id_from_signoz_resource (some r) ≡ ok id)
        × (extract_string lib response "data.id" ≡ ok id)
        × ((Objects.object lib cmp marshal_spec g).read_method_and_path (some r)
            ≡ record { method = "GET"; path = String.◌++◌ g.collection_path (String.◌++◌ "/" id) })
        × ((Objects.object lib cmp marshal_spec g).update_method_and_path (some r)
            ≡ record { method = "PUT"; path = String.◌++◌ g.collection_path (String.◌++◌ "/" id) })
        × ((Objects.object lib cmp marshal_spec g).delete_method_and_path (some r) ≡ record {
          method = "DELETE";
          path = String.◌++◌ g.collection_path (String.◌++◌ "/" id);
        })
  unfolding get_id_from_signoz_resource item_path id_or_empty
  to_resource-read response r h =
      let (id, extracted, recorded) = resource-id _ r h in
      let filled = extracted-ne_empty response "data.id" id extracted in
      (
        id,
        rw (recorded, filled) refl,
        extracted,
        rw (recorded, filled) refl,
        rw (recorded, filled) refl,
        rw (recorded, filled) refl,
      )
