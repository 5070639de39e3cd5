-- ===== src/Specs/SavedView/Queries.antt =====
-- Structs of api/resources/v1alpha1/zz_generated_savedview_types.go and their JSON.
use signoz_operator.Prelude.{Bool, List, Option, String, [], ◌∷◌}
use signoz_operator.JsonBody.Value.{Fields, Value}
use signoz_operator.Specs.{
  Number, build, omit_bool, omit_json, omit_number, omit_objects, omit_pointer, omit_text,
  omit_texts, text_entry,
}
use signoz_operator.Specs.SavedView.QueryParts.{
  SavedViewAggregation, SavedViewBucketOptions, SavedViewFilter, SavedViewFunction,
  SavedViewGroupBy, SavedViewHaving, SavedViewKey, SavedViewLimitBy, SavedViewOrder,
  saved_view_aggregation_json, saved_view_bucket_options_json, saved_view_filter_json,
  saved_view_function_json, saved_view_group_by_json, saved_view_having_json, saved_view_key_json,
  saved_view_limit_by_json, saved_view_order_json,
}

pub record SavedViewSecondaryAggregationGroupBy : Type 0 where
  pub name : String
  pub description : String
  pub field_context : String
  pub field_data_type : String
  pub signal : String
  pub unit : String

unfoldable pub saved_view_secondary_aggregation_group_by_json :
    SavedViewSecondaryAggregationGroupBy → Fields
saved_view_secondary_aggregation_group_by_json s = build (
    text_entry "name" s.name
    ∷ omit_text "description" s.description
    ∷ omit_text "fieldContext" s.field_context
    ∷ omit_text "fieldDataType" s.field_data_type
    ∷ omit_text "signal" s.signal
    ∷ omit_text "unit" s.unit
    ∷ [])

pub record SavedViewSecondaryAggregationLimitBy : Type 0 where
  pub keys : List String
  pub value : String

unfoldable pub saved_view_secondary_aggregation_limit_by_json :
    SavedViewSecondaryAggregationLimitBy → Fields
saved_view_secondary_aggregation_limit_by_json s =
    build (omit_texts "keys" s.keys ∷ omit_text "value" s.value ∷ [])

pub record SavedViewSecondaryAggregationOrder : Type 0 where
  pub direction : String
  pub key : Option SavedViewKey

unfoldable pub saved_view_secondary_aggregation_order_json :
    SavedViewSecondaryAggregationOrder → Fields
saved_view_secondary_aggregation_order_json s =
    build (omit_text "direction" s.direction ∷ omit_pointer saved_view_key_json "key" s.key ∷ [])

pub record SavedViewSecondaryAggregation : Type 0 where
  pub alias : String
  pub expression : String
  pub group_by : List SavedViewSecondaryAggregationGroupBy
  pub limit : Number
  pub limit_by : Option SavedViewSecondaryAggregationLimitBy
  pub order : List SavedViewSecondaryAggregationOrder
  pub step_interval : Option Value

unfoldable pub saved_view_secondary_aggregation_json : SavedViewSecondaryAggregation → Fields
saved_view_secondary_aggregation_json s = build (
    omit_text "alias" s.alias
    ∷ omit_text "expression" s.expression
    ∷ omit_objects saved_view_secondary_aggregation_group_by_json "groupBy" s.group_by
    ∷ omit_number "limit" s.limit
    ∷ omit_pointer saved_view_secondary_aggregation_limit_by_json "limitBy" s.limit_by
    ∷ omit_objects saved_view_secondary_aggregation_order_json "order" s.order
    ∷ omit_json "stepInterval" s.step_interval
    ∷ [])

pub record SavedViewSelectField : Type 0 where
  pub name : String
  pub description : String
  pub field_context : String
  pub field_data_type : String
  pub signal : String
  pub unit : String

unfoldable pub saved_view_select_field_json : SavedViewSelectField → Fields
saved_view_select_field_json s = build (
    text_entry "name" s.name
    ∷ omit_text "description" s.description
    ∷ omit_text "fieldContext" s.field_context
    ∷ omit_text "fieldDataType" s.field_data_type
    ∷ omit_text "signal" s.signal
    ∷ omit_text "unit" s.unit
    ∷ [])

pub record SavedViewQuerySpec : Type 0 where
  pub aggregations : List SavedViewAggregation
  pub bucket_options : Option SavedViewBucketOptions
  pub cursor : String
  pub disabled : Bool
  pub expression : String
  pub filter : Option SavedViewFilter
  pub functions : List SavedViewFunction
  pub group_by : List SavedViewGroupBy
  pub having : Option SavedViewHaving
  pub legend : String
  pub limit : Number
  pub limit_by : Option SavedViewLimitBy
  pub name : String
  pub offset : Number
  pub order : List SavedViewOrder
  pub query : String
  pub return_spans_from : String
  pub secondary_aggregations : List SavedViewSecondaryAggregation
  pub select_fields : List SavedViewSelectField
  pub signal : String
  pub skip_step_alignment : Bool
  pub source : String
  pub stats : Bool
  pub step : Option Value
  pub step_interval : Option Value

unfoldable pub saved_view_query_spec_json : SavedViewQuerySpec → Fields
saved_view_query_spec_json s = build (
    omit_objects saved_view_aggregation_json "aggregations" s.aggregations
    ∷ omit_pointer saved_view_bucket_options_json "bucketOptions" s.bucket_options
    ∷ omit_text "cursor" s.cursor
    ∷ omit_bool "disabled" s.disabled
    ∷ omit_text "expression" s.expression
    ∷ omit_pointer saved_view_filter_json "filter" s.filter
    ∷ omit_objects saved_view_function_json "functions" s.functions
    ∷ omit_objects saved_view_group_by_json "groupBy" s.group_by
    ∷ omit_pointer saved_view_having_json "having" s.having
    ∷ omit_text "legend" s.legend
    ∷ omit_number "limit" s.limit
    ∷ omit_pointer saved_view_limit_by_json "limitBy" s.limit_by
    ∷ omit_text "name" s.name
    ∷ omit_number "offset" s.offset
    ∷ omit_objects saved_view_order_json "order" s.order
    ∷ omit_text "query" s.query
    ∷ omit_text "returnSpansFrom" s.return_spans_from
    ∷ omit_objects saved_view_secondary_aggregation_json "secondaryAggregations"
        s.secondary_aggregations
    ∷ omit_objects saved_view_select_field_json "selectFields" s.select_fields
    ∷ omit_text "signal" s.signal
    ∷ omit_bool "skipStepAlignment" s.skip_step_alignment
    ∷ omit_text "source" s.source
    ∷ omit_bool "stats" s.stats
    ∷ omit_json "step" s.step
    ∷ omit_json "stepInterval" s.step_interval
    ∷ [])

pub record SavedViewQuery : Type 0 where
  pub type : String
  pub spec : Option SavedViewQuerySpec

unfoldable pub saved_view_query_json : SavedViewQuery → Fields
saved_view_query_json s =
    build (text_entry "type" s.type ∷ omit_pointer saved_view_query_spec_json "spec" s.spec ∷ [])

pub record SavedViewDisplay : Type 0 where
  pub color : String
  pub font_size : String
  pub format : String
  pub max_lines : Number

unfoldable pub saved_view_display_json : SavedViewDisplay → Fields
saved_view_display_json s = build (
    omit_text "color" s.color
    ∷ omit_text "fontSize" s.font_size
    ∷ omit_text "format" s.format
    ∷ omit_number "maxLines" s.max_lines
    ∷ [])
