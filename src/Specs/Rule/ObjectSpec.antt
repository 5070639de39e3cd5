-- ===== src/Specs/Rule/ObjectSpec.antt =====
-- Structs of api/resources/v1alpha1/zz_generated_rule_types.go and their JSON.
use signoz_operator.Prelude.{Bool, Dict, List, Option, String, [], ◌∷◌}
use signoz_operator.JsonBody.Value.{Fields}
use signoz_operator.Specs.{
  Number, build, number_entry, object_entry, objects_entry, omit_bool, omit_number,
  omit_number_pointer, omit_pointer, omit_text, omit_text_map, omit_texts, text_entry,
}
use signoz_operator.Specs.Rule.Queries.{RuleCompositeQuery, rule_composite_query_json}

pub record RuleThresholdsSpec : Type 0 where
  pub match_type : String
  pub name : String
  pub op : String
  pub target : Number
  pub channels : List String
  pub recovery_target : Option Number
  pub target_unit : String

unfoldable pub rule_thresholds_spec_json : RuleThresholdsSpec → Fields
rule_thresholds_spec_json s = build (
    text_entry "matchType" s.match_type
    ∷ text_entry "name" s.name
    ∷ text_entry "op" s.op
    ∷ number_entry "target" s.target
    ∷ omit_texts "channels" s.channels
    ∷ omit_number_pointer "recoveryTarget" s.recovery_target
    ∷ omit_text "targetUnit" s.target_unit
    ∷ [])

pub record RuleThresholds : Type 0 where
  pub kind : String
  pub spec : Option (List RuleThresholdsSpec)

unfoldable pub rule_thresholds_json : RuleThresholds → Fields
rule_thresholds_json s =
    build (text_entry "kind" s.kind ∷ objects_entry rule_thresholds_spec_json "spec" s.spec ∷ [])

pub record RuleCondition : Type 0 where
  pub composite_query : RuleCompositeQuery
  pub selected_query_name : String
  pub thresholds : RuleThresholds
  pub absent_for : Number
  pub alert_on_absent : Bool
  pub algorithm : String
  pub require_min_points : Bool
  pub required_num_points : Number
  pub seasonality : String

unfoldable pub rule_condition_json : RuleCondition → Fields
rule_condition_json s = build (
    object_entry rule_composite_query_json "compositeQuery" s.composite_query
    ∷ text_entry "selectedQueryName" s.selected_query_name
    ∷ object_entry rule_thresholds_json "thresholds" s.thresholds
    ∷ omit_number "absentFor" s.absent_for
    ∷ omit_bool "alertOnAbsent" s.alert_on_absent
    ∷ omit_text "algorithm" s.algorithm
    ∷ omit_bool "requireMinPoints" s.require_min_points
    ∷ omit_number "requiredNumPoints" s.required_num_points
    ∷ omit_text "seasonality" s.seasonality
    ∷ [])

pub record RuleSchedule : Type 0 where
  pub type : String
  pub day : Option Number
  pub hour : Option Number
  pub minute : Option Number
  pub weekday : Option Number

unfoldable pub rule_schedule_json : RuleSchedule → Fields
rule_schedule_json s = build (
    text_entry "type" s.type
    ∷ omit_number_pointer "day" s.day
    ∷ omit_number_pointer "hour" s.hour
    ∷ omit_number_pointer "minute" s.minute
    ∷ omit_number_pointer "weekday" s.weekday
    ∷ [])

pub record RuleEvaluationSpec : Type 0 where
  pub eval_window : String
  pub frequency : String
  pub schedule : Option RuleSchedule
  pub timezone : String

unfoldable pub rule_evaluation_spec_json : RuleEvaluationSpec → Fields
rule_evaluation_spec_json s = build (
    omit_text "evalWindow" s.eval_window
    ∷ omit_text "frequency" s.frequency
    ∷ omit_pointer rule_schedule_json "schedule" s.schedule
    ∷ omit_text "timezone" s.timezone
    ∷ [])

pub record RuleEvaluation : Type 0 where
  pub kind : String
  pub spec : RuleEvaluationSpec

unfoldable pub rule_evaluation_json : RuleEvaluation → Fields
rule_evaluation_json s =
    build (text_entry "kind" s.kind ∷ object_entry rule_evaluation_spec_json "spec" s.spec ∷ [])

pub record RuleRenotify : Type 0 where
  pub alert_states : List String
  pub enabled : Bool
  pub interval : String

unfoldable pub rule_renotify_json : RuleRenotify → Fields
rule_renotify_json s = build (
    omit_texts "alertStates" s.alert_states
    ∷ omit_bool "enabled" s.enabled
    ∷ omit_text "interval" s.interval
    ∷ [])

pub record RuleNotificationSettings : Type 0 where
  pub group_by : List String
  pub new_group_eval_delay : String
  pub renotify : Option RuleRenotify
  pub use_policy : Bool

unfoldable pub rule_notification_settings_json : RuleNotificationSettings → Fields
rule_notification_settings_json s = build (
    omit_texts "groupBy" s.group_by
    ∷ omit_text "newGroupEvalDelay" s.new_group_eval_delay
    ∷ omit_pointer rule_renotify_json "renotify" s.renotify
    ∷ omit_bool "usePolicy" s.use_policy
    ∷ [])

pub record RuleObjectSpec : Type 0 where
  pub alert : String
  pub alert_type : String
  pub condition : RuleCondition
  pub evaluation : RuleEvaluation
  pub notification_settings : RuleNotificationSettings
  pub rule_type : String
  pub schema_version : String
  pub annotations : Dict String
  pub description : String
  pub disabled : Bool
  pub labels : Dict String

unfoldable pub rule_object_spec_json : RuleObjectSpec → Fields
rule_object_spec_json s = build (
    text_entry "alert" s.alert
    ∷ text_entry "alertType" s.alert_type
    ∷ object_entry rule_condition_json "condition" s.condition
    ∷ object_entry rule_evaluation_json "evaluation" s.evaluation
    ∷ object_entry rule_notification_settings_json "notificationSettings" s.notification_settings
    ∷ text_entry "ruleType" s.rule_type
    ∷ text_entry "schemaVersion" s.schema_version
    ∷ omit_text_map "annotations" s.annotations
    ∷ omit_text "description" s.description
    ∷ omit_bool "disabled" s.disabled
    ∷ omit_text_map "labels" s.labels
    ∷ [])
