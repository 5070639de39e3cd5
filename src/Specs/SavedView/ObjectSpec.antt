-- ===== src/Specs/SavedView/ObjectSpec.antt =====
-- Structs of api/resources/v1alpha1/zz_generated_savedview_types.go and their JSON.
use signoz_operator.Prelude.{List, Option, String, [], ◌∷◌}
use signoz_operator.JsonBody.Value.{Fields}
use signoz_operator.Specs.{
  build, object_entry, objects_entry, omit_objects, omit_pointer, omit_text, text_entry,
}
use signoz_operator.Specs.SavedView.Queries.{
  SavedViewDisplay, SavedViewQuery, saved_view_display_json, saved_view_query_json,
}

pub record SavedViewSelectedField : Type 0 where
  pub name : String
  pub description : String
  pub field_context : String
  pub field_data_type : String
  pub signal : String
  pub unit : String

unfoldable pub saved_view_selected_field_json : SavedViewSelectedField → Fields
saved_view_selected_field_json s = build (
    text_entry "name" s.name
    ∷ omit_text "description" s.description
    ∷ omit_text "fieldContext" s.field_context
    ∷ omit_text "fieldDataType" s.field_data_type
    ∷ omit_text "signal" s.signal
    ∷ omit_text "unit" s.unit
    ∷ [])

pub record SavedViewSpecPayload : Type 0 where
  pub display_name : String
  pub panel_type : String
  pub queries : Option (List SavedViewQuery)
  pub request_type : String
  pub display : Option SavedViewDisplay
  pub selected_fields : List SavedViewSelectedField

unfoldable pub saved_view_spec_payload_json : SavedViewSpecPayload → Fields
saved_view_spec_payload_json s = build (
    text_entry "displayName" s.display_name
    ∷ text_entry "panelType" s.panel_type
    ∷ objects_entry saved_view_query_json "queries" s.queries
    ∷ text_entry "requestType" s.request_type
    ∷ omit_pointer saved_view_display_json "display" s.display
    ∷ omit_objects saved_view_selected_field_json "selectedFields" s.selected_fields
    ∷ [])

pub record SavedViewObjectSpec : Type 0 where
  pub schema_version : String
  pub source : String
  pub spec : SavedViewSpecPayload
  pub name : String

unfoldable pub saved_view_object_spec_json : SavedViewObjectSpec → Fields
saved_view_object_spec_json s = build (
    text_entry "schemaVersion" s.schema_version
    ∷ text_entry "source" s.source
    ∷ object_entry saved_view_spec_payload_json "spec" s.spec
    ∷ omit_text "name" s.name
    ∷ [])
