-- ===== src/Specs/Kinds.antt =====
-- The specs of six kinds, each struct with the fields of its JSON object in their order.
use signoz_operator.Prelude.{String, Bool, Option, List, [], ◌∷◌, Dict}
use signoz_operator.JsonBody.Value.{text, array, object, Items, nil, item, Fields, end, field}
use signoz_operator.Specs.{
  omitempty, omit_text, omit_bool, omit_texts, omit_text_map, omit_pointer, slice, is_empty,
}

pub record UserObjectSpec : Type 0 where
  pub email : String
  pub display_name : String

unfoldable pub user_json : UserObjectSpec → Fields
user_json s = field "email" (text s.email) (omit_text "displayName" s.display_name end)

pub record ServiceAccountObjectSpec : Type 0 where
  pub name : String

unfoldable pub service_account_json : ServiceAccountObjectSpec → Fields
service_account_json s = field "name" (text s.name) end

pub record RoutePolicyObjectSpec : Type 0 where
  pub channels : Option (List String)
  pub expression : String
  pub name : String
  pub description : String
  pub kind : String
  pub tags : List String

unfoldable pub route_policy_json : RoutePolicyObjectSpec → Fields
route_policy_json s = field "channels" (slice s.channels) (
    field "expression" (text s.expression) (
      field "name" (text s.name) (
        omit_text "description" s.description
          (omit_text "kind" s.kind (omit_texts "tags" s.tags end)))))

pub record RoleResource : Type 0 where
  pub kind : String
  pub type : String

pub record RoleObjectGroup : Type 0 where
  pub resource : RoleResource
  pub selectors : Option (List String)

pub record RoleTransactionGroup : Type 0 where
  pub object_group : RoleObjectGroup
  pub relation : String

pub record RoleObjectSpec : Type 0 where
  pub name : String
  pub description : String
  pub transaction_groups : List RoleTransactionGroup

unfoldable pub role_resource_json : RoleResource → Fields
role_resource_json s = field "kind" (text s.kind) (field "type" (text s.type) end)

unfoldable pub role_object_group_json : RoleObjectGroup → Fields
role_object_group_json s =
    field "resource" (object (role_resource_json s.resource))
      (field "selectors" (slice s.selectors) end)

unfoldable pub role_transaction_group_json : RoleTransactionGroup → Fields
role_transaction_group_json s =
    field "objectGroup" (object (role_object_group_json s.object_group))
      (field "relation" (text s.relation) end)

unfoldable pub transaction_groups_json : List RoleTransactionGroup → Items
transaction_groups_json [] = nil
transaction_groups_json (g ∷ gs) =
    item (object (role_transaction_group_json g)) (transaction_groups_json gs)

unfoldable pub role_json : RoleObjectSpec → Fields
role_json s = field "name" (text s.name) (
    omit_text "description" s.description (
      omitempty (is_empty s.transaction_groups) "transactionGroups"
        (array (transaction_groups_json s.transaction_groups)) end))

pub record PlannedMaintenanceRecurrence : Type 0 where
  pub duration : String
  pub repeat_type : String
  pub repeat_on : List String

pub record PlannedMaintenanceSchedule : Type 0 where
  pub start_time : String
  pub timezone : String
  pub end_time : String
  pub recurrence : Option PlannedMaintenanceRecurrence

pub record PlannedMaintenanceObjectSpec : Type 0 where
  pub name : String
  pub schedule : PlannedMaintenanceSchedule
  pub alert_ids : List String
  pub description : String
  pub scope : String

unfoldable pub recurrence_json : PlannedMaintenanceRecurrence → Fields
recurrence_json s =
    field "duration" (text s.duration)
      (field "repeatType" (text s.repeat_type) (omit_texts "repeatOn" s.repeat_on end))

unfoldable pub schedule_json : PlannedMaintenanceSchedule → Fields
schedule_json s = field "startTime" (text s.start_time) (
    field "timezone" (text s.timezone)
      (omit_text "endTime" s.end_time (omit_pointer recurrence_json "recurrence" s.recurrence end)))

unfoldable pub planned_maintenance_json : PlannedMaintenanceObjectSpec → Fields
planned_maintenance_json s = field "name" (text s.name) (
    field "schedule" (object (schedule_json s.schedule)) (
      omit_texts "alertIds" s.alert_ids
        (omit_text "description" s.description (omit_text "scope" s.scope end))))

pub record AuthDomainAttributeMapping : Type 0 where
  pub email : String
  pub groups : String
  pub name : String
  pub role : String

pub record AuthDomainRoleMapping : Type 0 where
  pub default_role : String
  pub group_mappings : Dict String
  pub use_role_attribute : Bool

pub record AuthDomainConfigSpec : Type 0 where
  pub allowed_groups : List String
  pub attribute_mapping : Option AuthDomainAttributeMapping
  pub certificate : String
  pub claim_mapping : Option AuthDomainAttributeMapping
  pub client_id : String
  pub client_secret : String
  pub domain_to_admin_email : Dict String
  pub entity_id : String
  pub fetch_groups : Bool
  pub fetch_transitive_group_membership : Bool
  pub get_user_info : Bool
  pub insecure_skip_auth_n_requests_signed : Bool
  pub insecure_skip_email_verified : Bool
  pub issuer : String
  pub issuer_alias : String
  pub location : String
  pub service_account_key : String

pub record AuthDomainConfig : Type 0 where
  pub kind : String
  pub spec : AuthDomainConfigSpec

pub record AuthDomainObjectSpec : Type 0 where
  pub config : AuthDomainConfig
  pub name : String
  pub enabled : Bool
  pub role_mapping : Option AuthDomainRoleMapping

unfoldable pub attribute_mapping_json : AuthDomainAttributeMapping → Fields
attribute_mapping_json s =
    omit_text "email" s.email
      (omit_text "groups" s.groups (omit_text "name" s.name (omit_text "role" s.role end)))

unfoldable pub role_mapping_json : AuthDomainRoleMapping → Fields
role_mapping_json s = omit_text "defaultRole" s.default_role (
    omit_text_map "groupMappings" s.group_mappings
      (omit_bool "useRoleAttribute" s.use_role_attribute end))

unfoldable pub config_spec_json : AuthDomainConfigSpec → Fields
config_spec_json s = omit_texts "allowedGroups" s.allowed_groups (
    omit_pointer attribute_mapping_json "attributeMapping" s.attribute_mapping (
      omit_text "certificate" s.certificate (
        omit_pointer attribute_mapping_json "claimMapping" s.claim_mapping (
          omit_text "clientId" s.client_id (
            omit_text "clientSecret" s.client_secret (
              omit_text_map "domainToAdminEmail" s.domain_to_admin_email (
                omit_text "entityId" s.entity_id (
                  omit_bool "fetchGroups" s.fetch_groups (
                    omit_bool "fetchTransitiveGroupMembership" s.fetch_transitive_group_membership
                      (config_flags_json s))))))))))
  where
    config_flags_json : AuthDomainConfigSpec → Fields
    config_flags_json s = omit_bool "getUserInfo" s.get_user_info (
        omit_bool "insecureSkipAuthNRequestsSigned" s.insecure_skip_auth_n_requests_signed (
          omit_bool "insecureSkipEmailVerified" s.insecure_skip_email_verified (
            omit_text "issuer" s.issuer (
              omit_text "issuerAlias" s.issuer_alias (
                omit_text "location" s.location
                  (omit_text "serviceAccountJson" s.service_account_key end))))))

unfoldable pub config_json : AuthDomainConfig → Fields
config_json s = field "kind" (text s.kind) (field "spec" (object (config_spec_json s.spec)) end)

unfoldable pub auth_domain_json : AuthDomainObjectSpec → Fields
auth_domain_json s = field "config" (object (config_json s.config)) (
    field "name" (text s.name) (
      omit_bool "enabled" s.enabled
        (omit_pointer role_mapping_json "roleMapping" s.role_mapping end)))
