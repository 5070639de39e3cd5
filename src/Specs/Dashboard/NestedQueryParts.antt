-- ===== src/Specs/Dashboard/NestedQueryParts.antt =====
-- Structs of api/resources/v1alpha1/zz_generated_dashboard_types.go and their JSON.
use signoz_operator.Prelude.{List, Option, String, [], ◌∷◌}
use signoz_operator.JsonBody.Value.{Fields}
use signoz_operator.Specs.{
  Number, build, object_entry, omit_number, omit_number_pointer, omit_objects, omit_pointer,
  omit_text, omit_texts, text_entry,
}
use signoz_operator.Specs.Dashboard.QueryParts.{
  DashboardArg, DashboardComparisonSpaceAggregationParam, DashboardKey, dashboard_arg_json,
  dashboard_comparison_space_aggregation_param_json, dashboard_key_json,
}

pub record DashboardQuerySpecPluginSpecQuerySpecAggregation : Type 0 where
  pub alias : String
  pub comparison_space_aggregation_param : Option DashboardComparisonSpaceAggregationParam
  pub expression : String
  pub metric_name : String
  pub reduce_to : String
  pub space_aggregation : String
  pub temporality : String
  pub time_aggregation : String

unfoldable pub dashboard_query_spec_plugin_spec_query_spec_aggregation_json :
    DashboardQuerySpecPluginSpecQuerySpecAggregation → Fields
dashboard_query_spec_plugin_spec_query_spec_aggregation_json s = build (
    omit_text "alias" s.alias
    ∷ omit_pointer dashboard_comparison_space_aggregation_param_json
        "comparisonSpaceAggregationParam" s.comparison_space_aggregation_param
    ∷ omit_text "expression" s.expression
    ∷ omit_text "metricName" s.metric_name
    ∷ omit_text "reduceTo" s.reduce_to
    ∷ omit_text "spaceAggregation" s.space_aggregation
    ∷ omit_text "temporality" s.temporality
    ∷ omit_text "timeAggregation" s.time_aggregation
    ∷ [])

pub record DashboardQuerySpecPluginSpecQuerySpecBucketOptionsSpec : Type 0 where
  pub max_value : Number
  pub num_buckets : Number
  pub scale : Option Number

unfoldable pub dashboard_query_spec_plugin_spec_query_spec_bucket_options_spec_json :
    DashboardQuerySpecPluginSpecQuerySpecBucketOptionsSpec → Fields
dashboard_query_spec_plugin_spec_query_spec_bucket_options_spec_json s = build (
    omit_number "maxValue" s.max_value
    ∷ omit_number "numBuckets" s.num_buckets
    ∷ omit_number_pointer "scale" s.scale
    ∷ [])

pub record DashboardQuerySpecPluginSpecQuerySpecBucketOptions : Type 0 where
  pub kind : String
  pub spec : DashboardQuerySpecPluginSpecQuerySpecBucketOptionsSpec

unfoldable pub dashboard_query_spec_plugin_spec_query_spec_bucket_options_json :
    DashboardQuerySpecPluginSpecQuerySpecBucketOptions → Fields
dashboard_query_spec_plugin_spec_query_spec_bucket_options_json s = build (
    text_entry "kind" s.kind
    ∷ object_entry dashboard_query_spec_plugin_spec_query_spec_bucket_options_spec_json "spec"
        s.spec
    ∷ [])

pub record DashboardQuerySpecPluginSpecQuerySpecFilter : Type 0 where
  pub expression : String

unfoldable pub dashboard_query_spec_plugin_spec_query_spec_filter_json :
    DashboardQuerySpecPluginSpecQuerySpecFilter → Fields
dashboard_query_spec_plugin_spec_query_spec_filter_json s =
    build (omit_text "expression" s.expression ∷ [])

pub record DashboardQuerySpecPluginSpecQuerySpecFunction : Type 0 where
  pub args : List DashboardArg
  pub name : String

unfoldable pub dashboard_query_spec_plugin_spec_query_spec_function_json :
    DashboardQuerySpecPluginSpecQuerySpecFunction → Fields
dashboard_query_spec_plugin_spec_query_spec_function_json s =
    build (omit_objects dashboard_arg_json "args" s.args ∷ omit_text "name" s.name ∷ [])

pub record DashboardQuerySpecPluginSpecQuerySpecGroupBy : Type 0 where
  pub name : String
  pub description : String
  pub field_context : String
  pub field_data_type : String
  pub signal : String
  pub unit : String

unfoldable pub dashboard_query_spec_plugin_spec_query_spec_group_by_json :
    DashboardQuerySpecPluginSpecQuerySpecGroupBy → Fields
dashboard_query_spec_plugin_spec_query_spec_group_by_json s = build (
    text_entry "name" s.name
    ∷ omit_text "description" s.description
    ∷ omit_text "fieldContext" s.field_context
    ∷ omit_text "fieldDataType" s.field_data_type
    ∷ omit_text "signal" s.signal
    ∷ omit_text "unit" s.unit
    ∷ [])

pub record DashboardQuerySpecPluginSpecQuerySpecHaving : Type 0 where
  pub expression : String

unfoldable pub dashboard_query_spec_plugin_spec_query_spec_having_json :
    DashboardQuerySpecPluginSpecQuerySpecHaving → Fields
dashboard_query_spec_plugin_spec_query_spec_having_json s =
    build (omit_text "expression" s.expression ∷ [])

pub record DashboardQuerySpecPluginSpecQuerySpecLimitBy : Type 0 where
  pub keys : List String
  pub value : String

unfoldable pub dashboard_query_spec_plugin_spec_query_spec_limit_by_json :
    DashboardQuerySpecPluginSpecQuerySpecLimitBy → Fields
dashboard_query_spec_plugin_spec_query_spec_limit_by_json s =
    build (omit_texts "keys" s.keys ∷ omit_text "value" s.value ∷ [])

pub record DashboardQuerySpecPluginSpecQuerySpecOrder : Type 0 where
  pub direction : String
  pub key : Option DashboardKey

unfoldable pub dashboard_query_spec_plugin_spec_query_spec_order_json :
    DashboardQuerySpecPluginSpecQuerySpecOrder → Fields
dashboard_query_spec_plugin_spec_query_spec_order_json s =
    build (omit_text "direction" s.direction ∷ omit_pointer dashboard_key_json "key" s.key ∷ [])

pub record DashboardSecondaryAggregationGroupBy : Type 0 where
  pub name : String
  pub description : String
  pub field_context : String
  pub field_data_type : String
  pub signal : String
  pub unit : String

unfoldable pub dashboard_secondary_aggregation_group_by_json :
    DashboardSecondaryAggregationGroupBy → Fields
dashboard_secondary_aggregation_group_by_json s = build (
    text_entry "name" s.name
    ∷ omit_text "description" s.description
    ∷ omit_text "fieldContext" s.field_context
    ∷ omit_text "fieldDataType" s.field_data_type
    ∷ omit_text "signal" s.signal
    ∷ omit_text "unit" s.unit
    ∷ [])

pub record DashboardSecondaryAggregationLimitBy : Type 0 where
  pub keys : List String
  pub value : String

unfoldable pub dashboard_secondary_aggregation_limit_by_json :
    DashboardSecondaryAggregationLimitBy → Fields
dashboard_secondary_aggregation_limit_by_json s =
    build (omit_texts "keys" s.keys ∷ omit_text "value" s.value ∷ [])

pub record DashboardSecondaryAggregationOrder : Type 0 where
  pub direction : String
  pub key : Option DashboardKey

unfoldable pub dashboard_secondary_aggregation_order_json :
    DashboardSecondaryAggregationOrder → Fields
dashboard_secondary_aggregation_order_json s =
    build (omit_text "direction" s.direction ∷ omit_pointer dashboard_key_json "key" s.key ∷ [])
