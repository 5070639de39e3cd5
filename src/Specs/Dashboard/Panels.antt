-- ===== src/Specs/Dashboard/Panels.antt =====
-- Structs of api/resources/v1alpha1/zz_generated_dashboard_types.go and their JSON.
use signoz_operator.Prelude.{Bool, List, Option, String, [], ◌∷◌}
use signoz_operator.JsonBody.Value.{Fields, Value}
use signoz_operator.Specs.{
  Number, build, object_entry, objects_entry, omit_bool, omit_json, omit_number, omit_objects,
  omit_pointer, omit_text, text_entry,
}
use signoz_operator.Specs.Dashboard.Charts.{DashboardDisplay, dashboard_display_json}
use signoz_operator.Specs.Dashboard.NestedQueries.{
  DashboardQuerySpecPluginSpecQuery, DashboardQuerySpecPluginSpecSelectField,
  DashboardSecondaryAggregation, dashboard_query_spec_plugin_spec_query_json,
  dashboard_query_spec_plugin_spec_select_field_json, dashboard_secondary_aggregation_json,
}
use signoz_operator.Specs.Dashboard.Plugins.{DashboardPlugin, dashboard_plugin_json}
use signoz_operator.Specs.Dashboard.QueryParts.{
  DashboardAggregation, DashboardBucketOptions, DashboardFilter, DashboardFunction,
  DashboardGroupBy, DashboardHaving, DashboardLimitBy, DashboardOrder, dashboard_aggregation_json,
  dashboard_bucket_options_json, dashboard_filter_json, dashboard_function_json,
  dashboard_group_by_json, dashboard_having_json, dashboard_limit_by_json, dashboard_order_json,
}

pub record DashboardQuerySpecPluginSpec : Type 0 where
  pub aggregations : List DashboardAggregation
  pub bucket_options : Option DashboardBucketOptions
  pub cursor : String
  pub disabled : Bool
  pub expression : String
  pub filter : Option DashboardFilter
  pub functions : List DashboardFunction
  pub group_by : List DashboardGroupBy
  pub having : Option DashboardHaving
  pub legend : String
  pub limit : Number
  pub limit_by : Option DashboardLimitBy
  pub name : String
  pub offset : Number
  pub order : List DashboardOrder
  pub queries : List DashboardQuerySpecPluginSpecQuery
  pub query : String
  pub return_spans_from : String
  pub secondary_aggregations : List DashboardSecondaryAggregation
  pub select_fields : List DashboardQuerySpecPluginSpecSelectField
  pub signal : String
  pub skip_step_alignment : Bool
  pub source : String
  pub stats : Bool
  pub step : Option Value
  pub step_interval : Option Value

unfoldable pub dashboard_query_spec_plugin_spec_json : DashboardQuerySpecPluginSpec → Fields
dashboard_query_spec_plugin_spec_json s = build (
    omit_objects dashboard_aggregation_json "aggregations" s.aggregations
    ∷ omit_pointer dashboard_bucket_options_json "bucketOptions" s.bucket_options
    ∷ omit_text "cursor" s.cursor
    ∷ omit_bool "disabled" s.disabled
    ∷ omit_text "expression" s.expression
    ∷ omit_pointer dashboard_filter_json "filter" s.filter
    ∷ omit_objects dashboard_function_json "functions" s.functions
    ∷ omit_objects dashboard_group_by_json "groupBy" s.group_by
    ∷ omit_pointer dashboard_having_json "having" s.having
    ∷ omit_text "legend" s.legend
    ∷ omit_number "limit" s.limit
    ∷ omit_pointer dashboard_limit_by_json "limitBy" s.limit_by
    ∷ omit_text "name" s.name
    ∷ omit_number "offset" s.offset
    ∷ omit_objects dashboard_order_json "order" s.order
    ∷ omit_objects dashboard_query_spec_plugin_spec_query_json "queries" s.queries
    ∷ omit_text "query" s.query
    ∷ omit_text "returnSpansFrom" s.return_spans_from
    ∷ omit_objects dashboard_secondary_aggregation_json "secondaryAggregations"
        s.secondary_aggregations
    ∷ omit_objects dashboard_query_spec_plugin_spec_select_field_json "selectFields" s.select_fields
    ∷ omit_text "signal" s.signal
    ∷ omit_bool "skipStepAlignment" s.skip_step_alignment
    ∷ omit_text "source" s.source
    ∷ omit_bool "stats" s.stats
    ∷ omit_json "step" s.step
    ∷ omit_json "stepInterval" s.step_interval
    ∷ [])

pub record DashboardQuerySpecPlugin : Type 0 where
  pub kind : String
  pub spec : DashboardQuerySpecPluginSpec

unfoldable pub dashboard_query_spec_plugin_json : DashboardQuerySpecPlugin → Fields
dashboard_query_spec_plugin_json s = build (
    text_entry "kind" s.kind
    ∷ object_entry dashboard_query_spec_plugin_spec_json "spec" s.spec
    ∷ [])

pub record DashboardQuerySpec : Type 0 where
  pub plugin : DashboardQuerySpecPlugin
  pub name : String

unfoldable pub dashboard_query_spec_json : DashboardQuerySpec → Fields
dashboard_query_spec_json s =
    build (
      object_entry dashboard_query_spec_plugin_json "plugin" s.plugin
      ∷ omit_text "name" s.name
      ∷ [])

pub record DashboardQuery : Type 0 where
  pub kind : String
  pub spec : DashboardQuerySpec

unfoldable pub dashboard_query_json : DashboardQuery → Fields
dashboard_query_json s =
    build (text_entry "kind" s.kind ∷ object_entry dashboard_query_spec_json "spec" s.spec ∷ [])

pub record DashboardLink : Type 0 where
  pub name : String
  pub render_variables : Bool
  pub target_blank : Bool
  pub tooltip : String
  pub url : String

unfoldable pub dashboard_link_json : DashboardLink → Fields
dashboard_link_json s = build (
    omit_text "name" s.name
    ∷ omit_bool "renderVariables" s.render_variables
    ∷ omit_bool "targetBlank" s.target_blank
    ∷ omit_text "tooltip" s.tooltip
    ∷ omit_text "url" s.url
    ∷ [])

pub record DashboardPanelSpec : Type 0 where
  pub display : DashboardDisplay
  pub plugin : DashboardPlugin
  pub queries : Option (List DashboardQuery)
  pub links : List DashboardLink

unfoldable pub dashboard_panel_spec_json : DashboardPanelSpec → Fields
dashboard_panel_spec_json s = build (
    object_entry dashboard_display_json "display" s.display
    ∷ object_entry dashboard_plugin_json "plugin" s.plugin
    ∷ objects_entry dashboard_query_json "queries" s.queries
    ∷ omit_objects dashboard_link_json "links" s.links
    ∷ [])

pub record DashboardPanel : Type 0 where
  pub kind : String
  pub spec : DashboardPanelSpec

unfoldable pub dashboard_panel_json : DashboardPanel → Fields
dashboard_panel_json s =
    build (text_entry "kind" s.kind ∷ object_entry dashboard_panel_spec_json "spec" s.spec ∷ [])

pub record DashboardVariableSpecPluginSpec : Type 0 where
  pub custom_value : String
  pub name : String
  pub query_value : String
  pub signal : String

unfoldable pub dashboard_variable_spec_plugin_spec_json : DashboardVariableSpecPluginSpec → Fields
dashboard_variable_spec_plugin_spec_json s = build (
    omit_text "customValue" s.custom_value
    ∷ omit_text "name" s.name
    ∷ omit_text "queryValue" s.query_value
    ∷ omit_text "signal" s.signal
    ∷ [])

pub record DashboardVariableSpecPlugin : Type 0 where
  pub kind : String
  pub spec : DashboardVariableSpecPluginSpec

unfoldable pub dashboard_variable_spec_plugin_json : DashboardVariableSpecPlugin → Fields
dashboard_variable_spec_plugin_json s = build (
    text_entry "kind" s.kind
    ∷ object_entry dashboard_variable_spec_plugin_spec_json "spec" s.spec
    ∷ [])
