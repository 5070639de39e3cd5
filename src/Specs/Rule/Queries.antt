-- ===== src/Specs/Rule/Queries.antt =====
-- Structs of api/resources/v1alpha1/zz_generated_rule_types.go and their JSON.
use signoz_operator.Prelude.{Bool, List, Option, String, [], ◌∷◌}
use signoz_operator.JsonBody.Value.{Fields, Value}
use signoz_operator.Specs.{
  Number, build, objects_entry, omit_bool, omit_json, omit_number, omit_objects, omit_pointer,
  omit_text, omit_texts, text_entry,
}
use signoz_operator.Specs.Rule.QueryParts.{
  RuleAggregation, RuleBucketOptions, RuleFilter, RuleFunction, RuleGroupBy, RuleHaving, RuleKey,
  RuleLimitBy, RuleOrder, rule_aggregation_json, rule_bucket_options_json, rule_filter_json,
  rule_function_json, rule_group_by_json, rule_having_json, rule_key_json, rule_limit_by_json,
  rule_order_json,
}

pub record RuleSecondaryAggregationGroupBy : Type 0 where
  pub name : String
  pub description : String
  pub field_context : String
  pub field_data_type : String
  pub signal : String
  pub unit : String

unfoldable pub rule_secondary_aggregation_group_by_json : RuleSecondaryAggregationGroupBy → Fields
rule_secondary_aggregation_group_by_json s = build (
    text_entry "name" s.name
    ∷ omit_text "description" s.description
    ∷ omit_text "fieldContext" s.field_context
    ∷ omit_text "fieldDataType" s.field_data_type
    ∷ omit_text "signal" s.signal
    ∷ omit_text "unit" s.unit
    ∷ [])

pub record RuleSecondaryAggregationLimitBy : Type 0 where
  pub keys : List String
  pub value : String

unfoldable pub rule_secondary_aggregation_limit_by_json : RuleSecondaryAggregationLimitBy → Fields
rule_secondary_aggregation_limit_by_json s =
    build (omit_texts "keys" s.keys ∷ omit_text "value" s.value ∷ [])

pub record RuleSecondaryAggregationOrder : Type 0 where
  pub direction : String
  pub key : Option RuleKey

unfoldable pub rule_secondary_aggregation_order_json : RuleSecondaryAggregationOrder → Fields
rule_secondary_aggregation_order_json s =
    build (omit_text "direction" s.direction ∷ omit_pointer rule_key_json "key" s.key ∷ [])

pub record RuleSecondaryAggregation : Type 0 where
  pub alias : String
  pub expression : String
  pub group_by : List RuleSecondaryAggregationGroupBy
  pub limit : Number
  pub limit_by : Option RuleSecondaryAggregationLimitBy
  pub order : List RuleSecondaryAggregationOrder
  pub step_interval : Option Value

unfoldable pub rule_secondary_aggregation_json : RuleSecondaryAggregation → Fields
rule_secondary_aggregation_json s = build (
    omit_text "alias" s.alias
    ∷ omit_text "expression" s.expression
    ∷ omit_objects rule_secondary_aggregation_group_by_json "groupBy" s.group_by
    ∷ omit_number "limit" s.limit
    ∷ omit_pointer rule_secondary_aggregation_limit_by_json "limitBy" s.limit_by
    ∷ omit_objects rule_secondary_aggregation_order_json "order" s.order
    ∷ omit_json "stepInterval" s.step_interval
    ∷ [])

pub record RuleSelectField : Type 0 where
  pub name : String
  pub description : String
  pub field_context : String
  pub field_data_type : String
  pub signal : String
  pub unit : String

unfoldable pub rule_select_field_json : RuleSelectField → Fields
rule_select_field_json s = build (
    text_entry "name" s.name
    ∷ omit_text "description" s.description
    ∷ omit_text "fieldContext" s.field_context
    ∷ omit_text "fieldDataType" s.field_data_type
    ∷ omit_text "signal" s.signal
    ∷ omit_text "unit" s.unit
    ∷ [])

pub record RuleQuerySpec : Type 0 where
  pub aggregations : List RuleAggregation
  pub bucket_options : Option RuleBucketOptions
  pub cursor : String
  pub disabled : Bool
  pub expression : String
  pub filter : Option RuleFilter
  pub functions : List RuleFunction
  pub group_by : List RuleGroupBy
  pub having : Option RuleHaving
  pub legend : String
  pub limit : Number
  pub limit_by : Option RuleLimitBy
  pub name : String
  pub offset : Number
  pub order : List RuleOrder
  pub query : String
  pub return_spans_from : String
  pub secondary_aggregations : List RuleSecondaryAggregation
  pub select_fields : List RuleSelectField
  pub signal : String
  pub skip_step_alignment : Bool
  pub source : String
  pub stats : Bool
  pub step : Option Value
  pub step_interval : Option Value

unfoldable pub rule_query_spec_json : RuleQuerySpec → Fields
rule_query_spec_json s = build (
    omit_objects rule_aggregation_json "aggregations" s.aggregations
    ∷ omit_pointer rule_bucket_options_json "bucketOptions" s.bucket_options
    ∷ omit_text "cursor" s.cursor
    ∷ omit_bool "disabled" s.disabled
    ∷ omit_text "expression" s.expression
    ∷ omit_pointer rule_filter_json "filter" s.filter
    ∷ omit_objects rule_function_json "functions" s.functions
    ∷ omit_objects rule_group_by_json "groupBy" s.group_by
    ∷ omit_pointer rule_having_json "having" s.having
    ∷ omit_text "legend" s.legend
    ∷ omit_number "limit" s.limit
    ∷ omit_pointer rule_limit_by_json "limitBy" s.limit_by
    ∷ omit_text "name" s.name
    ∷ omit_number "offset" s.offset
    ∷ omit_objects rule_order_json "order" s.order
    ∷ omit_text "query" s.query
    ∷ omit_text "returnSpansFrom" s.return_spans_from
    ∷ omit_objects rule_secondary_aggregation_json "secondaryAggregations" s.secondary_aggregations
    ∷ omit_objects rule_select_field_json "selectFields" s.select_fields
    ∷ omit_text "signal" s.signal
    ∷ omit_bool "skipStepAlignment" s.skip_step_alignment
    ∷ omit_text "source" s.source
    ∷ omit_bool "stats" s.stats
    ∷ omit_json "step" s.step
    ∷ omit_json "stepInterval" s.step_interval
    ∷ [])

pub record RuleQuery : Type 0 where
  pub type : String
  pub spec : Option RuleQuerySpec

unfoldable pub rule_query_json : RuleQuery → Fields
rule_query_json s =
    build (text_entry "type" s.type ∷ omit_pointer rule_query_spec_json "spec" s.spec ∷ [])

pub record RuleCompositeQuery : Type 0 where
  pub panel_type : String
  pub queries : Option (List RuleQuery)
  pub query_type : String
  pub unit : String

unfoldable pub rule_composite_query_json : RuleCompositeQuery → Fields
rule_composite_query_json s = build (
    text_entry "panelType" s.panel_type
    ∷ objects_entry rule_query_json "queries" s.queries
    ∷ text_entry "queryType" s.query_type
    ∷ omit_text "unit" s.unit
    ∷ [])
