-- ===== src/Specs/SavedView/QueryParts.antt =====
-- Structs of api/resources/v1alpha1/zz_generated_savedview_types.go and their JSON.
use signoz_operator.Prelude.{List, Option, String, [], ◌∷◌}
use signoz_operator.JsonBody.Value.{Fields, Value}
use signoz_operator.Specs.{
  Number, build, number_entry, object_entry, omit_json, omit_number, omit_number_pointer,
  omit_objects, omit_pointer, omit_text, omit_texts, text_entry,
}

pub record SavedViewComparisonSpaceAggregationParam : Type 0 where
  pub operator : String
  pub threshold : Number

unfoldable pub saved_view_comparison_space_aggregation_param_json :
    SavedViewComparisonSpaceAggregationParam → Fields
saved_view_comparison_space_aggregation_param_json s =
    build (text_entry "operator" s.operator ∷ number_entry "threshold" s.threshold ∷ [])

pub record SavedViewAggregation : Type 0 where
  pub alias : String
  pub comparison_space_aggregation_param : Option SavedViewComparisonSpaceAggregationParam
  pub expression : String
  pub metric_name : String
  pub reduce_to : String
  pub space_aggregation : String
  pub temporality : String
  pub time_aggregation : String

unfoldable pub saved_view_aggregation_json : SavedViewAggregation → Fields
saved_view_aggregation_json s = build (
    omit_text "alias" s.alias
    ∷ omit_pointer saved_view_comparison_space_aggregation_param_json
        "comparisonSpaceAggregationParam" s.comparison_space_aggregation_param
    ∷ omit_text "expression" s.expression
    ∷ omit_text "metricName" s.metric_name
    ∷ omit_text "reduceTo" s.reduce_to
    ∷ omit_text "spaceAggregation" s.space_aggregation
    ∷ omit_text "temporality" s.temporality
    ∷ omit_text "timeAggregation" s.time_aggregation
    ∷ [])

pub record SavedViewBucketOptionsSpec : Type 0 where
  pub max_value : Number
  pub num_buckets : Number
  pub scale : Option Number

unfoldable pub saved_view_bucket_options_spec_json : SavedViewBucketOptionsSpec → Fields
saved_view_bucket_options_spec_json s = build (
    omit_number "maxValue" s.max_value
    ∷ omit_number "numBuckets" s.num_buckets
    ∷ omit_number_pointer "scale" s.scale
    ∷ [])

pub record SavedViewBucketOptions : Type 0 where
  pub kind : String
  pub spec : SavedViewBucketOptionsSpec

unfoldable pub saved_view_bucket_options_json : SavedViewBucketOptions → Fields
saved_view_bucket_options_json s =
    build (
      text_entry "kind" s.kind
      ∷ object_entry saved_view_bucket_options_spec_json "spec" s.spec
      ∷ [])

pub record SavedViewFilter : Type 0 where
  pub expression : String

unfoldable pub saved_view_filter_json : SavedViewFilter → Fields
saved_view_filter_json s = build (omit_text "expression" s.expression ∷ [])

pub record SavedViewArg : Type 0 where
  pub name : String
  pub value : Option Value

unfoldable pub saved_view_arg_json : SavedViewArg → Fields
saved_view_arg_json s = build (omit_text "name" s.name ∷ omit_json "value" s.value ∷ [])

pub record SavedViewFunction : Type 0 where
  pub args : List SavedViewArg
  pub name : String

unfoldable pub saved_view_function_json : SavedViewFunction → Fields
saved_view_function_json s =
    build (omit_objects saved_view_arg_json "args" s.args ∷ omit_text "name" s.name ∷ [])

pub record SavedViewGroupBy : Type 0 where
  pub name : String
  pub description : String
  pub field_context : String
  pub field_data_type : String
  pub signal : String
  pub unit : String

unfoldable pub saved_view_group_by_json : SavedViewGroupBy → Fields
saved_view_group_by_json s = build (
    text_entry "name" s.name
    ∷ omit_text "description" s.description
    ∷ omit_text "fieldContext" s.field_context
    ∷ omit_text "fieldDataType" s.field_data_type
    ∷ omit_text "signal" s.signal
    ∷ omit_text "unit" s.unit
    ∷ [])

pub record SavedViewHaving : Type 0 where
  pub expression : String

unfoldable pub saved_view_having_json : SavedViewHaving → Fields
saved_view_having_json s = build (omit_text "expression" s.expression ∷ [])

pub record SavedViewLimitBy : Type 0 where
  pub keys : List String
  pub value : String

unfoldable pub saved_view_limit_by_json : SavedViewLimitBy → Fields
saved_view_limit_by_json s = build (omit_texts "keys" s.keys ∷ omit_text "value" s.value ∷ [])

pub record SavedViewKey : Type 0 where
  pub name : String
  pub description : String
  pub field_context : String
  pub field_data_type : String
  pub signal : String
  pub unit : String

unfoldable pub saved_view_key_json : SavedViewKey → Fields
saved_view_key_json s = build (
    text_entry "name" s.name
    ∷ omit_text "description" s.description
    ∷ omit_text "fieldContext" s.field_context
    ∷ omit_text "fieldDataType" s.field_data_type
    ∷ omit_text "signal" s.signal
    ∷ omit_text "unit" s.unit
    ∷ [])

pub record SavedViewOrder : Type 0 where
  pub direction : String
  pub key : Option SavedViewKey

unfoldable pub saved_view_order_json : SavedViewOrder → Fields
saved_view_order_json s =
    build (omit_text "direction" s.direction ∷ omit_pointer saved_view_key_json "key" s.key ∷ [])
