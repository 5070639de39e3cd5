-- ===== src/Specs/Dashboard/QueryParts.antt =====
-- Structs of api/resources/v1alpha1/zz_generated_dashboard_types.go and their JSON.
use signoz_operator.Prelude.{List, Option, String, [], ◌∷◌}
use signoz_operator.JsonBody.Value.{Fields, Value}
use signoz_operator.Specs.{
  Number, build, number_entry, object_entry, omit_json, omit_number, omit_number_pointer,
  omit_objects, omit_pointer, omit_text, omit_texts, text_entry,
}

pub record DashboardComparisonSpaceAggregationParam : Type 0 where
  pub operator : String
  pub threshold : Number

unfoldable pub dashboard_comparison_space_aggregation_param_json :
    DashboardComparisonSpaceAggregationParam → Fields
dashboard_comparison_space_aggregation_param_json s =
    build (text_entry "operator" s.operator ∷ number_entry "threshold" s.threshold ∷ [])

pub record DashboardAggregation : Type 0 where
  pub alias : String
  pub comparison_space_aggregation_param : Option DashboardComparisonSpaceAggregationParam
  pub expression : String
  pub metric_name : String
  pub reduce_to : String
  pub space_aggregation : String
  pub temporality : String
  pub time_aggregation : String

unfoldable pub dashboard_aggregation_json : DashboardAggregation → Fields
dashboard_aggregation_json s = build (
    omit_text "alias" s.alias
    ∷ omit_pointer dashboard_comparison_space_aggregation_param_json
        "comparisonSpaceAggregationParam" s.comparison_space_aggregation_param
    ∷ omit_text "expression" s.expression
    ∷ omit_text "metricName" s.metric_name
    ∷ omit_text "reduceTo" s.reduce_to
    ∷ omit_text "spaceAggregation" s.space_aggregation
    ∷ omit_text "temporality" s.temporality
    ∷ omit_text "timeAggregation" s.time_aggregation
    ∷ [])

pub record DashboardBucketOptionsSpec : Type 0 where
  pub max_value : Number
  pub num_buckets : Number
  pub scale : Option Number

unfoldable pub dashboard_bucket_options_spec_json : DashboardBucketOptionsSpec → Fields
dashboard_bucket_options_spec_json s = build (
    omit_number "maxValue" s.max_value
    ∷ omit_number "numBuckets" s.num_buckets
    ∷ omit_number_pointer "scale" s.scale
    ∷ [])

pub record DashboardBucketOptions : Type 0 where
  pub kind : String
  pub spec : DashboardBucketOptionsSpec

unfoldable pub dashboard_bucket_options_json : DashboardBucketOptions → Fields
dashboard_bucket_options_json s =
    build (
      text_entry "kind" s.kind ∷ object_entry dashboard_bucket_options_spec_json "spec" s.spec ∷ [])

pub record DashboardFilter : Type 0 where
  pub expression : String

unfoldable pub dashboard_filter_json : DashboardFilter → Fields
dashboard_filter_json s = build (omit_text "expression" s.expression ∷ [])

pub record DashboardArg : Type 0 where
  pub name : String
  pub value : Option Value

unfoldable pub dashboard_arg_json : DashboardArg → Fields
dashboard_arg_json s = build (omit_text "name" s.name ∷ omit_json "value" s.value ∷ [])

pub record DashboardFunction : Type 0 where
  pub args : List DashboardArg
  pub name : String

unfoldable pub dashboard_function_json : DashboardFunction → Fields
dashboard_function_json s =
    build (omit_objects dashboard_arg_json "args" s.args ∷ omit_text "name" s.name ∷ [])

pub record DashboardGroupBy : Type 0 where
  pub name : String
  pub description : String
  pub field_context : String
  pub field_data_type : String
  pub signal : String
  pub unit : String

unfoldable pub dashboard_group_by_json : DashboardGroupBy → Fields
dashboard_group_by_json s = build (
    text_entry "name" s.name
    ∷ omit_text "description" s.description
    ∷ omit_text "fieldContext" s.field_context
    ∷ omit_text "fieldDataType" s.field_data_type
    ∷ omit_text "signal" s.signal
    ∷ omit_text "unit" s.unit
    ∷ [])

pub record DashboardHaving : Type 0 where
  pub expression : String

unfoldable pub dashboard_having_json : DashboardHaving → Fields
dashboard_having_json s = build (omit_text "expression" s.expression ∷ [])

pub record DashboardLimitBy : Type 0 where
  pub keys : List String
  pub value : String

unfoldable pub dashboard_limit_by_json : DashboardLimitBy → Fields
dashboard_limit_by_json s = build (omit_texts "keys" s.keys ∷ omit_text "value" s.value ∷ [])

pub record DashboardKey : Type 0 where
  pub name : String
  pub description : String
  pub field_context : String
  pub field_data_type : String
  pub signal : String
  pub unit : String

unfoldable pub dashboard_key_json : DashboardKey → Fields
dashboard_key_json s = build (
    text_entry "name" s.name
    ∷ omit_text "description" s.description
    ∷ omit_text "fieldContext" s.field_context
    ∷ omit_text "fieldDataType" s.field_data_type
    ∷ omit_text "signal" s.signal
    ∷ omit_text "unit" s.unit
    ∷ [])

pub record DashboardOrder : Type 0 where
  pub direction : String
  pub key : Option DashboardKey

unfoldable pub dashboard_order_json : DashboardOrder → Fields
dashboard_order_json s =
    build (omit_text "direction" s.direction ∷ omit_pointer dashboard_key_json "key" s.key ∷ [])
