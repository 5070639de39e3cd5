-- ===== src/Specs/Dashboard/NestedQueries.antt =====
-- Structs of api/resources/v1alpha1/zz_generated_dashboard_types.go and their JSON.
use signoz_operator.Prelude.{Bool, List, Option, String, [], ◌∷◌}
use signoz_operator.JsonBody.Value.{Fields, Value}
use signoz_operator.Specs.{
  Number, build, omit_bool, omit_json, omit_number, omit_objects, omit_pointer, omit_text,
  text_entry,
}
use signoz_operator.Specs.Dashboard.NestedQueryParts.{
  DashboardQuerySpecPluginSpecQuerySpecAggregation,
  DashboardQuerySpecPluginSpecQuerySpecBucketOptions, DashboardQuerySpecPluginSpecQuerySpecFilter,
  DashboardQuerySpecPluginSpecQuerySpecFunction, DashboardQuerySpecPluginSpecQuerySpecGroupBy,
  DashboardQuerySpecPluginSpecQuerySpecHaving, DashboardQuerySpecPluginSpecQuerySpecLimitBy,
  DashboardQuerySpecPluginSpecQuerySpecOrder, DashboardSecondaryAggregationGroupBy,
  DashboardSecondaryAggregationLimitBy, DashboardSecondaryAggregationOrder,
  dashboard_query_spec_plugin_spec_query_spec_aggregation_json,
  dashboard_query_spec_plugin_spec_query_spec_bucket_options_json,
  dashboard_query_spec_plugin_spec_query_spec_filter_json,
  dashboard_query_spec_plugin_spec_query_spec_function_json,
  dashboard_query_spec_plugin_spec_query_spec_group_by_json,
  dashboard_query_spec_plugin_spec_query_spec_having_json,
  dashboard_query_spec_plugin_spec_query_spec_limit_by_json,
  dashboard_query_spec_plugin_spec_query_spec_order_json,
  dashboard_secondary_aggregation_group_by_json, dashboard_secondary_aggregation_limit_by_json,
  dashboard_secondary_aggregation_order_json,
}

pub record DashboardSecondaryAggregation : Type 0 where
  pub alias : String
  pub expression : String
  pub group_by : List DashboardSecondaryAggregationGroupBy
  pub limit : Number
  pub limit_by : Option DashboardSecondaryAggregationLimitBy
  pub order : List DashboardSecondaryAggregationOrder
  pub step_interval : Option Value

unfoldable pub dashboard_secondary_aggregation_json : DashboardSecondaryAggregation → Fields
dashboard_secondary_aggregation_json s = build (
    omit_text "alias" s.alias
    ∷ omit_text "expression" s.expression
    ∷ omit_objects dashboard_secondary_aggregation_group_by_json "groupBy" s.group_by
    ∷ omit_number "limit" s.limit
    ∷ omit_pointer dashboard_secondary_aggregation_limit_by_json "limitBy" s.limit_by
    ∷ omit_objects dashboard_secondary_aggregation_order_json "order" s.order
    ∷ omit_json "stepInterval" s.step_interval
    ∷ [])

pub record DashboardQuerySpecPluginSpecQuerySpecSelectField : Type 0 where
  pub name : String
  pub description : String
  pub field_context : String
  pub field_data_type : String
  pub signal : String
  pub unit : String

unfoldable pub dashboard_query_spec_plugin_spec_query_spec_select_field_json :
    DashboardQuerySpecPluginSpecQuerySpecSelectField → Fields
dashboard_query_spec_plugin_spec_query_spec_select_field_json s = build (
    text_entry "name" s.name
    ∷ omit_text "description" s.description
    ∷ omit_text "fieldContext" s.field_context
    ∷ omit_text "fieldDataType" s.field_data_type
    ∷ omit_text "signal" s.signal
    ∷ omit_text "unit" s.unit
    ∷ [])

pub record DashboardQuerySpecPluginSpecQuerySpec : Type 0 where
  pub aggregations : List DashboardQuerySpecPluginSpecQuerySpecAggregation
  pub bucket_options : Option DashboardQuerySpecPluginSpecQuerySpecBucketOptions
  pub cursor : String
  pub disabled : Bool
  pub expression : String
  pub filter : Option DashboardQuerySpecPluginSpecQuerySpecFilter
  pub functions : List DashboardQuerySpecPluginSpecQuerySpecFunction
  pub group_by : List DashboardQuerySpecPluginSpecQuerySpecGroupBy
  pub having : Option DashboardQuerySpecPluginSpecQuerySpecHaving
  pub legend : String
  pub limit : Number
  pub limit_by : Option DashboardQuerySpecPluginSpecQuerySpecLimitBy
  pub name : String
  pub offset : Number
  pub order : List DashboardQuerySpecPluginSpecQuerySpecOrder
  pub query : String
  pub return_spans_from : String
  pub secondary_aggregations : List DashboardSecondaryAggregation
  pub select_fields : List DashboardQuerySpecPluginSpecQuerySpecSelectField
  pub signal : String
  pub skip_step_alignment : Bool
  pub source : String
  pub stats : Bool
  pub step : Option Value
  pub step_interval : Option Value

unfoldable pub dashboard_query_spec_plugin_spec_query_spec_json :
    DashboardQuerySpecPluginSpecQuerySpec → Fields
dashboard_query_spec_plugin_spec_query_spec_json s = build (
    omit_objects dashboard_query_spec_plugin_spec_query_spec_aggregation_json "aggregations"
      s.aggregations
    ∷ omit_pointer dashboard_query_spec_plugin_spec_query_spec_bucket_options_json "bucketOptions"
        s.bucket_options
    ∷ omit_text "cursor" s.cursor
    ∷ omit_bool "disabled" s.disabled
    ∷ omit_text "expression" s.expression
    ∷ omit_pointer dashboard_query_spec_plugin_spec_query_spec_filter_json "filter" s.filter
    ∷ omit_objects dashboard_query_spec_plugin_spec_query_spec_function_json "functions" s.functions
    ∷ omit_objects dashboard_query_spec_plugin_spec_query_spec_group_by_json "groupBy" s.group_by
    ∷ omit_pointer dashboard_query_spec_plugin_spec_query_spec_having_json "having" s.having
    ∷ omit_text "legend" s.legend
    ∷ omit_number "limit" s.limit
    ∷ omit_pointer dashboard_query_spec_plugin_spec_query_spec_limit_by_json "limitBy" s.limit_by
    ∷ omit_text "name" s.name
    ∷ omit_number "offset" s.offset
    ∷ omit_objects dashboard_query_spec_plugin_spec_query_spec_order_json "order" s.order
    ∷ omit_text "query" s.query
    ∷ omit_text "returnSpansFrom" s.return_spans_from
    ∷ omit_objects dashboard_secondary_aggregation_json "secondaryAggregations"
        s.secondary_aggregations
    ∷ omit_objects dashboard_query_spec_plugin_spec_query_spec_select_field_json "selectFields"
        s.select_fields
    ∷ omit_text "signal" s.signal
    ∷ omit_bool "skipStepAlignment" s.skip_step_alignment
    ∷ omit_text "source" s.source
    ∷ omit_bool "stats" s.stats
    ∷ omit_json "step" s.step
    ∷ omit_json "stepInterval" s.step_interval
    ∷ [])

pub record DashboardQuerySpecPluginSpecQuery : Type 0 where
  pub type : String
  pub spec : Option DashboardQuerySpecPluginSpecQuerySpec

unfoldable pub dashboard_query_spec_plugin_spec_query_json :
    DashboardQuerySpecPluginSpecQuery → Fields
dashboard_query_spec_plugin_spec_query_json s = build (
    text_entry "type" s.type
    ∷ omit_pointer dashboard_query_spec_plugin_spec_query_spec_json "spec" s.spec
    ∷ [])

pub record DashboardQuerySpecPluginSpecSelectField : Type 0 where
  pub name : String
  pub description : String
  pub field_context : String
  pub field_data_type : String
  pub signal : String
  pub unit : String

unfoldable pub dashboard_query_spec_plugin_spec_select_field_json :
    DashboardQuerySpecPluginSpecSelectField → Fields
dashboard_query_spec_plugin_spec_select_field_json s = build (
    text_entry "name" s.name
    ∷ omit_text "description" s.description
    ∷ omit_text "fieldContext" s.field_context
    ∷ omit_text "fieldDataType" s.field_data_type
    ∷ omit_text "signal" s.signal
    ∷ omit_text "unit" s.unit
    ∷ [])
