-- ===== src/Specs/NotificationChannel/ConfigSpec.antt =====
-- Structs of api/resources/v1alpha1/zz_generated_notificationchannel_types.go and their JSON.
use signoz_operator.Prelude.{Bool, Dict, List, Option, String, [], ◌∷◌}
use signoz_operator.JsonBody.Value.{Fields, Value}
use signoz_operator.Specs.{
  Number, build, omit_bool, omit_bool_pointer, omit_json, omit_number, omit_objects, omit_pointer,
  omit_text, omit_text_map, omit_texts, text_entry,
}

pub record NotificationChannelConfirm : Type 0 where
  pub text : String
  pub dismiss_text : String
  pub ok_text : String
  pub title : String

unfoldable pub notification_channel_confirm_json : NotificationChannelConfirm → Fields
notification_channel_confirm_json s = build (
    text_entry "text" s.text
    ∷ omit_text "dismissText" s.dismiss_text
    ∷ omit_text "okText" s.ok_text
    ∷ omit_text "title" s.title
    ∷ [])

pub record NotificationChannelAction : Type 0 where
  pub text : String
  pub type : String
  pub confirm : Option NotificationChannelConfirm
  pub name : String
  pub style : String
  pub url : String
  pub value : String

unfoldable pub notification_channel_action_json : NotificationChannelAction → Fields
notification_channel_action_json s = build (
    text_entry "text" s.text
    ∷ text_entry "type" s.type
    ∷ omit_pointer notification_channel_confirm_json "confirm" s.confirm
    ∷ omit_text "name" s.name
    ∷ omit_text "style" s.style
    ∷ omit_text "url" s.url
    ∷ omit_text "value" s.value
    ∷ [])

pub record NotificationChannelField : Type 0 where
  pub title : String
  pub value : String
  pub short : Option Bool

unfoldable pub notification_channel_field_json : NotificationChannelField → Fields
notification_channel_field_json s = build (
    text_entry "title" s.title
    ∷ text_entry "value" s.value
    ∷ omit_bool_pointer "short" s.short
    ∷ [])

pub record NotificationChannelConfigSpec : Type 0 where
  pub actions : List NotificationChannelAction
  pub api_key : String
  pub api_token : String
  pub api_url : String
  pub bearer_token : String
  pub bot_token : String
  pub channel : String
  pub chat_id : Number
  pub class : String
  pub client : String
  pub client_url : String
  pub color : String
  pub component : String
  pub custom_fields : Option Value
  pub description : String
  pub details : Dict String
  pub disable_notifications : Bool
  pub email : String
  pub fallback : String
  pub fields : List NotificationChannelField
  pub footer : String
  pub group : String
  pub headers : Dict String
  pub html : String
  pub issue_type : String
  pub labels : List String
  pub message : String
  pub message_thread_id : Number
  pub metadata : Dict String
  pub password : String
  pub pretext : String
  pub priority : String
  pub project : String
  pub reopen_duration : String
  pub reopen_transition : String
  pub resolve_transition : String
  pub routing_key : String
  pub send_resolved : Option Bool
  pub severity : String
  pub site : String
  pub source : String
  pub summary : String
  pub tags : String
  pub text : String
  pub title : String
  pub title_link : String
  pub to : String
  pub token : String
  pub url : String
  pub username : String
  pub webhook_url : String
  pub wont_fix_resolution : String

unfoldable pub notification_channel_config_spec_json : NotificationChannelConfigSpec → Fields
notification_channel_config_spec_json s = build (
    omit_objects notification_channel_action_json "actions" s.actions
    ∷ omit_text "apiKey" s.api_key
    ∷ omit_text "apiToken" s.api_token
    ∷ omit_text "apiUrl" s.api_url
    ∷ omit_text "bearerToken" s.bearer_token
    ∷ omit_text "botToken" s.bot_token
    ∷ omit_text "channel" s.channel
    ∷ omit_number "chatId" s.chat_id
    ∷ omit_text "class" s.class
    ∷ omit_text "client" s.client
    ∷ omit_text "clientUrl" s.client_url
    ∷ omit_text "color" s.color
    ∷ omit_text "component" s.component
    ∷ omit_json "customFields" s.custom_fields
    ∷ omit_text "description" s.description
    ∷ omit_text_map "details" s.details
    ∷ omit_bool "disableNotifications" s.disable_notifications
    ∷ omit_text "email" s.email
    ∷ omit_text "fallback" s.fallback
    ∷ omit_objects notification_channel_field_json "fields" s.fields
    ∷ omit_text "footer" s.footer
    ∷ omit_text "group" s.group
    ∷ omit_text_map "headers" s.headers
    ∷ omit_text "html" s.html
    ∷ omit_text "issueType" s.issue_type
    ∷ omit_texts "labels" s.labels
    ∷ omit_text "message" s.message
    ∷ omit_number "messageThreadId" s.message_thread_id
    ∷ omit_text_map "metadata" s.metadata
    ∷ omit_text "password" s.password
    ∷ omit_text "pretext" s.pretext
    ∷ omit_text "priority" s.priority
    ∷ omit_text "project" s.project
    ∷ omit_text "reopenDuration" s.reopen_duration
    ∷ omit_text "reopenTransition" s.reopen_transition
    ∷ omit_text "resolveTransition" s.resolve_transition
    ∷ omit_text "routingKey" s.routing_key
    ∷ omit_bool_pointer "sendResolved" s.send_resolved
    ∷ omit_text "severity" s.severity
    ∷ omit_text "site" s.site
    ∷ omit_text "source" s.source
    ∷ omit_text "summary" s.summary
    ∷ omit_text "tags" s.tags
    ∷ omit_text "text" s.text
    ∷ omit_text "title" s.title
    ∷ omit_text "titleLink" s.title_link
    ∷ omit_text "to" s.to
    ∷ omit_text "token" s.token
    ∷ omit_text "url" s.url
    ∷ omit_text "username" s.username
    ∷ omit_text "webhookUrl" s.webhook_url
    ∷ omit_text "wontFixResolution" s.wont_fix_resolution
    ∷ [])
