-- ===== src/Specs/Rule/QueryParts.antt =====
-- Structs of api/resources/v1alpha1/zz_generated_rule_types.go and their JSON.
use signoz_operator.Prelude.{List, Option, String, [], ◌∷◌}
use signoz_operator.JsonBody.Value.{Fields, Value}
use signoz_operator.Specs.{
  Number, build, number_entry, object_entry, omit_json, omit_number, omit_number_pointer,
  omit_objects, omit_pointer, omit_text, omit_texts, text_entry,
}

pub record RuleComparisonSpaceAggregationParam : Type 0 where
  pub operator : String
  pub threshold : Number

unfoldable pub rule_comparison_space_aggregation_param_json :
    RuleComparisonSpaceAggregationParam → Fields
rule_comparison_space_aggregation_param_json s =
    build (text_entry "operator" s.operator ∷ number_entry "threshold" s.threshold ∷ [])

pub record RuleAggregation : Type 0 where
  pub alias : String
  pub comparison_space_aggregation_param : Option RuleComparisonSpaceAggregationParam
  pub expression : String
  pub metric_name : String
  pub reduce_to : String
  pub space_aggregation : String
  pub temporality : String
  pub time_aggregation : String

unfoldable pub rule_aggregation_json : RuleAggregation → Fields
rule_aggregation_json s = build (
    omit_text "alias" s.alias
    ∷ omit_pointer rule_comparison_space_aggregation_param_json "comparisonSpaceAggregationParam"
        s.comparison_space_aggregation_param
    ∷ omit_text "expression" s.expression
    ∷ omit_text "metricName" s.metric_name
    ∷ omit_text "reduceTo" s.reduce_to
    ∷ omit_text "spaceAggregation" s.space_aggregation
    ∷ omit_text "temporality" s.temporality
    ∷ omit_text "timeAggregation" s.time_aggregation
    ∷ [])

pub record RuleBucketOptionsSpec : Type 0 where
  pub max_value : Number
  pub num_buckets : Number
  pub scale : Option Number

unfoldable pub rule_bucket_options_spec_json : RuleBucketOptionsSpec → Fields
rule_bucket_options_spec_json s = build (
    omit_number "maxValue" s.max_value
    ∷ omit_number "numBuckets" s.num_buckets
    ∷ omit_number_pointer "scale" s.scale
    ∷ [])

pub record RuleBucketOptions : Type 0 where
  pub kind : String
  pub spec : RuleBucketOptionsSpec

unfoldable pub rule_bucket_options_json : RuleBucketOptions → Fields
rule_bucket_options_json s =
    build (text_entry "kind" s.kind ∷ object_entry rule_bucket_options_spec_json "spec" s.spec ∷ [])

pub record RuleFilter : Type 0 where
  pub expression : String

unfoldable pub rule_filter_json : RuleFilter → Fields
rule_filter_json s = build (omit_text "expression" s.expression ∷ [])

pub record RuleArg : Type 0 where
  pub name : String
  pub value : Option Value

unfoldable pub rule_arg_json : RuleArg → Fields
rule_arg_json s = build (omit_text "name" s.name ∷ omit_json "value" s.value ∷ [])

pub record RuleFunction : Type 0 where
  pub args : List RuleArg
  pub name : String

unfoldable pub rule_function_json : RuleFunction → Fields
rule_function_json s =
    build (omit_objects rule_arg_json "args" s.args ∷ omit_text "name" s.name ∷ [])

pub record RuleGroupBy : Type 0 where
  pub name : String
  pub description : String
  pub field_context : String
  pub field_data_type : String
  pub signal : String
  pub unit : String

unfoldable pub rule_group_by_json : RuleGroupBy → Fields
rule_group_by_json s = build (
    text_entry "name" s.name
    ∷ omit_text "description" s.description
    ∷ omit_text "fieldContext" s.field_context
    ∷ omit_text "fieldDataType" s.field_data_type
    ∷ omit_text "signal" s.signal
    ∷ omit_text "unit" s.unit
    ∷ [])

pub record RuleHaving : Type 0 where
  pub expression : String

unfoldable pub rule_having_json : RuleHaving → Fields
rule_having_json s = build (omit_text "expression" s.expression ∷ [])

pub record RuleLimitBy : Type 0 where
  pub keys : List String
  pub value : String

unfoldable pub rule_limit_by_json : RuleLimitBy → Fields
rule_limit_by_json s = build (omit_texts "keys" s.keys ∷ omit_text "value" s.value ∷ [])

pub record RuleKey : Type 0 where
  pub name : String
  pub description : String
  pub field_context : String
  pub field_data_type : String
  pub signal : String
  pub unit : String

unfoldable pub rule_key_json : RuleKey → Fields
rule_key_json s = build (
    text_entry "name" s.name
    ∷ omit_text "description" s.description
    ∷ omit_text "fieldContext" s.field_context
    ∷ omit_text "fieldDataType" s.field_data_type
    ∷ omit_text "signal" s.signal
    ∷ omit_text "unit" s.unit
    ∷ [])

pub record RuleOrder : Type 0 where
  pub direction : String
  pub key : Option RuleKey

unfoldable pub rule_order_json : RuleOrder → Fields
rule_order_json s =
    build (omit_text "direction" s.direction ∷ omit_pointer rule_key_json "key" s.key ∷ [])
