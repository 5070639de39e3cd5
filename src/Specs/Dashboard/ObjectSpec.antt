-- ===== src/Specs/Dashboard/ObjectSpec.antt =====
-- Structs of api/resources/v1alpha1/zz_generated_dashboard_types.go and their JSON.
use signoz_operator.Prelude.{Bool, Dict, List, Option, String, [], ◌∷◌}
use signoz_operator.JsonBody.Value.{Fields, Value}
use signoz_operator.Specs.{
  build, object_entry, object_map_entry, objects_entry, omit_bool, omit_json, omit_objects,
  omit_pointer, omit_text, text_entry,
}
use signoz_operator.Specs.Dashboard.Charts.{
  DashboardDisplay, DashboardLayout, dashboard_display_json, dashboard_layout_json,
}
use signoz_operator.Specs.Dashboard.Panels.{
  DashboardLink, DashboardPanel, DashboardVariableSpecPlugin, dashboard_link_json,
  dashboard_panel_json, dashboard_variable_spec_plugin_json,
}

pub record DashboardVariableSpec : Type 0 where
  pub allow_all_value : Bool
  pub allow_multiple : Bool
  pub capturing_regexp : String
  pub constant : Bool
  pub custom_all_value : String
  pub default_value : Option Value
  pub display : Option DashboardDisplay
  pub name : String
  pub plugin : Option DashboardVariableSpecPlugin
  pub sort : String
  pub value : String

unfoldable pub dashboard_variable_spec_json : DashboardVariableSpec → Fields
dashboard_variable_spec_json s = build (
    omit_bool "allowAllValue" s.allow_all_value
    ∷ omit_bool "allowMultiple" s.allow_multiple
    ∷ omit_text "capturingRegexp" s.capturing_regexp
    ∷ omit_bool "constant" s.constant
    ∷ omit_text "customAllValue" s.custom_all_value
    ∷ omit_json "defaultValue" s.default_value
    ∷ omit_pointer dashboard_display_json "display" s.display
    ∷ omit_text "name" s.name
    ∷ omit_pointer dashboard_variable_spec_plugin_json "plugin" s.plugin
    ∷ omit_text "sort" s.sort
    ∷ omit_text "value" s.value
    ∷ [])

pub record DashboardVariable : Type 0 where
  pub kind : String
  pub spec : DashboardVariableSpec

unfoldable pub dashboard_variable_json : DashboardVariable → Fields
dashboard_variable_json s =
    build (text_entry "kind" s.kind ∷ object_entry dashboard_variable_spec_json "spec" s.spec ∷ [])

pub record DashboardSpecPayload : Type 0 where
  pub display : DashboardDisplay
  pub layouts : Option (List DashboardLayout)
  pub panels : Option (Dict DashboardPanel)
  pub variables : Option (List DashboardVariable)
  pub duration : String
  pub links : List DashboardLink
  pub refresh_interval : String

unfoldable pub dashboard_spec_payload_json : DashboardSpecPayload → Fields
dashboard_spec_payload_json s = build (
    object_entry dashboard_display_json "display" s.display
    ∷ objects_entry dashboard_layout_json "layouts" s.layouts
    ∷ object_map_entry dashboard_panel_json "panels" s.panels
    ∷ objects_entry dashboard_variable_json "variables" s.variables
    ∷ omit_text "duration" s.duration
    ∷ omit_objects dashboard_link_json "links" s.links
    ∷ omit_text "refreshInterval" s.refresh_interval
    ∷ [])

pub record DashboardTag : Type 0 where
  pub key : String
  pub value : String

unfoldable pub dashboard_tag_json : DashboardTag → Fields
dashboard_tag_json s = build (text_entry "key" s.key ∷ text_entry "value" s.value ∷ [])

pub record DashboardObjectSpec : Type 0 where
  pub schema_version : String
  pub spec : DashboardSpecPayload
  pub tags : Option (List DashboardTag)
  pub image : String
  pub name : String

unfoldable pub dashboard_object_spec_json : DashboardObjectSpec → Fields
dashboard_object_spec_json s = build (
    text_entry "schemaVersion" s.schema_version
    ∷ object_entry dashboard_spec_payload_json "spec" s.spec
    ∷ objects_entry dashboard_tag_json "tags" s.tags
    ∷ omit_text "image" s.image
    ∷ omit_text "name" s.name
    ∷ [])
