-- ===== src/Objects.antt =====
-- internal/resources/objects: the objects of the ten kinds. Their files are generated from one
-- template and differ in a collection path, the field of the identity and two lists of fields, so
-- `object` has the methods once and Kinds the ten objects.
pub mod Kinds
pub mod Update
pub mod Compare
use Prim.Native.String
use signoz_operator.Prelude.{String, Option, none, some, List, RawMessage}
use signoz_operator.Errors.{Result, ok, err}
use signoz_operator.Core.{SigNozResource, get_id_from_signoz_resource}
use signoz_operator.Resources.Object.{Kind, Endpoint, CompareResult}
use signoz_operator.JsonBody.Value.{JsonLibrary}
use signoz_operator.JsonBody.Diff.{Comparer, diff}
use signoz_operator.JsonBody.Paths.{intersect}
use signoz_operator.JsonBody.Render.{
  render, extract_string, extract_from_specs, extract_fields, hash,
}

-- The object template of a spec: the typed form or the JSON one.
pub record Template (S : Type 0) : Type 0 where
  pub spec : Option S
  pub json_spec : Option String

-- What a generated file says of its kind.
pub record Generated : Type 0 where
  pub collection_path : String
  pub identity_field : String
  pub updatable_fields : List String
  pub immutable_fields : List String

-- The id, or the empty text with an error that is dropped.
unfoldable pub id_or_empty : Result String → String
id_or_empty (ok id) = id
id_or_empty (err e) = ""

unfoldable pub item_path : String → Option SigNozResource → String
item_path collection resource =
    String.◌++◌ collection (String.◌++◌ "/" (id_or_empty (get_id_from_signoz_resource resource)))

unfoldable pub to_resource : Result String → Result SigNozResource
to_resource (ok id) = ok (record { id = some id })
to_resource (err e) = err e

module _ {J S : Type 0} (lib : JsonLibrary J) (cmp : Comparer)
    (marshal_spec : S → Result RawMessage) where
  unfoldable pub body : Template S → Result RawMessage
  body t = render lib marshal_spec t.spec t.json_spec

  unfoldable pub hash_of : Result RawMessage → Result String
  hash_of (ok body) = hash lib body
  hash_of (err e) = err e

  unfoldable pub update_of : List String → Result RawMessage → Result RawMessage
  update_of fields (ok body) = extract_fields lib body fields
  update_of fields (err e) = err e

  unfoldable pub compare_of : Generated → RawMessage → Result RawMessage → Result CompareResult
  compare_of g response (ok body) =
      let paths =
        diff cmp (lib.value (lib.parse_bytes body))
          (lib.value (lib.gjson.get_bytes response "data")) in
      ok (record {
        updatable_fields = intersect paths g.updatable_fields;
        immutable_fields = intersect paths g.immutable_fields;
      })
  compare_of g response (err e) = err e

  -- The methods of a generated object.
  abbrev pub object : Generated → Kind (Template S)
  object g = record {
    identity = λ t. extract_from_specs lib marshal_spec t.spec t.json_spec g.identity_field;
    body = body;
    hash = λ t. hash_of (body t);
    to_signoz_resource = λ response. to_resource (extract_string lib response "data.id");
    to_update = λ t. update_of g.updatable_fields (body t);
    updatable_fields = g.updatable_fields;
    immutable_fields = g.immutable_fields;
    compare = λ t response. compare_of g response (body t);
    create_method_and_path = record { method = "POST"; path = g.collection_path };
    update_method_and_path = λ r. record { method = "PUT"; path = item_path g.collection_path r };
    read_method_and_path = λ r. record { method = "GET"; path = item_path g.collection_path r };
    delete_method_and_path =
        λ r. record { method = "DELETE"; path = item_path g.collection_path r };
  }
