-- ===== src/Objects/Kinds.antt =====
-- The generated objects.
use signoz_operator.Prelude.{[], ◌∷◌, RawMessage}
use signoz_operator.Errors.{Result}
use signoz_operator.Resources.Object.{Kind}
use signoz_operator.JsonBody.Value.{JsonLibrary}
use signoz_operator.JsonBody.Diff.{Comparer}
use signoz_operator.Objects.{Generated, Template, object}

abbrev pub auth_domain_fields : Generated
auth_domain_fields = record {
  collection_path = "/api/v2/auth_domains";
  identity_field = "name";
  updatable_fields = "config" ∷ "enabled" ∷ "roleMapping" ∷ [];
  immutable_fields = "name" ∷ [];
}

abbrev pub dashboard_fields : Generated
dashboard_fields = record {
  collection_path = "/api/v2/dashboards";
  identity_field = "name";
  updatable_fields = "image" ∷ "name" ∷ "schemaVersion" ∷ "spec" ∷ "tags" ∷ [];
  immutable_fields = [];
}

abbrev pub notification_channel_fields : Generated
notification_channel_fields = record {
  collection_path = "/api/v2/notification_channels";
  identity_field = "name";
  updatable_fields = "config" ∷ [];
  immutable_fields = "displayName" ∷ "name" ∷ [];
}

abbrev pub planned_maintenance_fields : Generated
planned_maintenance_fields = record {
  collection_path = "/api/v1/downtime_schedules";
  identity_field = "name";
  updatable_fields = "alertIds" ∷ "description" ∷ "name" ∷ "schedule" ∷ "scope" ∷ [];
  immutable_fields = [];
}

abbrev pub role_fields : Generated
role_fields = record {
  collection_path = "/api/v1/roles";
  identity_field = "name";
  updatable_fields = "description" ∷ "transactionGroups" ∷ [];
  immutable_fields = "name" ∷ [];
}

abbrev pub route_policy_fields : Generated
route_policy_fields = record {
  collection_path = "/api/v1/route_policies";
  identity_field = "name";
  updatable_fields = "channels" ∷ "description" ∷ "expression" ∷ "kind" ∷ "name" ∷ "tags" ∷ [];
  immutable_fields = [];
}

abbrev pub rule_fields : Generated
rule_fields = record {
  collection_path = "/api/v2/rules";
  identity_field = "alert";
  updatable_fields =
      "alert" ∷ "alertType" ∷ "annotations" ∷ "condition" ∷ "description" ∷ "disabled"
      ∷ "evaluation" ∷ "labels" ∷ "notificationSettings" ∷ "ruleType" ∷ "schemaVersion" ∷ [];
  immutable_fields = [];
}

abbrev pub saved_view_fields : Generated
saved_view_fields = record {
  collection_path = "/api/v2/saved_views";
  identity_field = "name";
  updatable_fields = "schemaVersion" ∷ "source" ∷ "spec" ∷ [];
  immutable_fields = "name" ∷ [];
}

abbrev pub service_account_fields : Generated
service_account_fields = record {
  collection_path = "/api/v1/service_accounts";
  identity_field = "name";
  updatable_fields = "name" ∷ [];
  immutable_fields = [];
}

abbrev pub user_fields : Generated
user_fields = record {
  collection_path = "/api/v2/users";
  identity_field = "email";
  updatable_fields = "displayName" ∷ [];
  immutable_fields = "email" ∷ [];
}

pub data ResourceKind : Type 0 where
  auth_domain dashboard notification_channel planned_maintenance role : ResourceKind
  route_policy rule saved_view service_account user : ResourceKind

abbrev pub generated : ResourceKind → Generated
generated auth_domain = auth_domain_fields
generated dashboard = dashboard_fields
generated notification_channel = notification_channel_fields
generated planned_maintenance = planned_maintenance_fields
generated role = role_fields
generated route_policy = route_policy_fields
generated rule = rule_fields
generated saved_view = saved_view_fields
generated service_account = service_account_fields
generated user = user_fields

module _ {J S : Type 0} (lib : JsonLibrary J) (cmp : Comparer)
    (marshal_spec : S → Result RawMessage) where
  abbrev pub auth_domain_object : Kind (Template S)
  auth_domain_object = object lib cmp marshal_spec auth_domain_fields

  abbrev pub dashboard_object : Kind (Template S)
  dashboard_object = object lib cmp marshal_spec dashboard_fields

  abbrev pub notification_channel_object : Kind (Template S)
  notification_channel_object = object lib cmp marshal_spec notification_channel_fields

  abbrev pub planned_maintenance_object : Kind (Template S)
  planned_maintenance_object = object lib cmp marshal_spec planned_maintenance_fields

  abbrev pub role_object : Kind (Template S)
  role_object = object lib cmp marshal_spec role_fields

  abbrev pub route_policy_object : Kind (Template S)
  route_policy_object = object lib cmp marshal_spec route_policy_fields

  abbrev pub rule_object : Kind (Template S)
  rule_object = object lib cmp marshal_spec rule_fields

  abbrev pub saved_view_object : Kind (Template S)
  saved_view_object = object lib cmp marshal_spec saved_view_fields

  abbrev pub service_account_object : Kind (Template S)
  service_account_object = object lib cmp marshal_spec service_account_fields

  abbrev pub user_object : Kind (Template S)
  user_object = object lib cmp marshal_spec user_fields
