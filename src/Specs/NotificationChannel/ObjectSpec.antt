-- ===== src/Specs/NotificationChannel/ObjectSpec.antt =====
-- Structs of api/resources/v1alpha1/zz_generated_notificationchannel_types.go and their JSON.
use signoz_operator.Prelude.{String, [], ◌∷◌}
use signoz_operator.JsonBody.Value.{Fields}
use signoz_operator.Specs.{build, object_entry, omit_text, text_entry}
use signoz_operator.Specs.NotificationChannel.ConfigSpec.{
  NotificationChannelConfigSpec, notification_channel_config_spec_json,
}

pub record NotificationChannelConfig : Type 0 where
  pub kind : String
  pub spec : NotificationChannelConfigSpec

unfoldable pub notification_channel_config_json : NotificationChannelConfig → Fields
notification_channel_config_json s = build (
    text_entry "kind" s.kind
    ∷ object_entry notification_channel_config_spec_json "spec" s.spec
    ∷ [])

pub record NotificationChannelObjectSpec : Type 0 where
  pub config : NotificationChannelConfig
  pub display_name : String
  pub name : String

unfoldable pub notification_channel_object_spec_json : NotificationChannelObjectSpec → Fields
notification_channel_object_spec_json s = build (
    object_entry notification_channel_config_json "config" s.config
    ∷ omit_text "displayName" s.display_name
    ∷ omit_text "name" s.name
    ∷ [])
