-- ===== src/Specs/Covered.antt =====
-- The generated lists of fields cover the specs.
use signoz_operator.Prelude.{
  String, ◌≡◌, refl, Bool, true, false, ◌&&◌, ◌||◌, Option, none, some, listed, str_eq, eq_iff,
  eq_refl, ◌∙◌, Bool-cases, inl, inr,
}
use signoz_operator.JsonBody.Value.{Value, text, Fields, end, field, lookup}
use signoz_operator.Objects.{Generated}
use signoz_operator.Objects.Kinds.{
  ResourceKind, generated, auth_domain, planned_maintenance, role, route_policy, service_account,
  user, notification_channel, saved_view, rule, dashboard, notification_channel_fields,
  saved_view_fields, rule_fields, dashboard_fields, user_fields, route_policy_fields, role_fields,
  planned_maintenance_fields, auth_domain_fields,
}
use signoz_operator.Specs.{omitempty, omit_pointer, omit_text, build}
use signoz_operator.Specs.NotificationChannel.ObjectSpec.{
  NotificationChannelObjectSpec, notification_channel_object_spec_json,
}
use signoz_operator.Specs.SavedView.ObjectSpec.{SavedViewObjectSpec, saved_view_object_spec_json}
use signoz_operator.Specs.Rule.ObjectSpec.{RuleObjectSpec, rule_object_spec_json}
use signoz_operator.Specs.Dashboard.ObjectSpec.{DashboardObjectSpec, dashboard_object_spec_json}
use signoz_operator.Specs.Kinds.{
  UserObjectSpec, user_json, ServiceAccountObjectSpec, service_account_json, RoutePolicyObjectSpec,
  route_policy_json, RoleObjectSpec, role_json, PlannedMaintenanceObjectSpec,
  planned_maintenance_json, AuthDomainObjectSpec, auth_domain_json, role_mapping_json,
}

-- The spec of an object of one of the ten kinds.
pub data TypedSpec : Type 0 where
  user_spec : UserObjectSpec → TypedSpec
  service_account_spec : ServiceAccountObjectSpec → TypedSpec
  route_policy_spec : RoutePolicyObjectSpec → TypedSpec
  role_spec : RoleObjectSpec → TypedSpec
  planned_maintenance_spec : PlannedMaintenanceObjectSpec → TypedSpec
  auth_domain_spec : AuthDomainObjectSpec → TypedSpec
  notification_channel_spec : NotificationChannelObjectSpec → TypedSpec
  saved_view_spec : SavedViewObjectSpec → TypedSpec
  rule_spec : RuleObjectSpec → TypedSpec
  dashboard_spec : DashboardObjectSpec → TypedSpec

abbrev pub kind_of : TypedSpec → ResourceKind
kind_of (user_spec s) = user
kind_of (service_account_spec s) = service_account
kind_of (route_policy_spec s) = route_policy
kind_of (role_spec s) = role
kind_of (planned_maintenance_spec s) = planned_maintenance
kind_of (auth_domain_spec s) = auth_domain
kind_of (notification_channel_spec s) = notification_channel
kind_of (saved_view_spec s) = saved_view
kind_of (rule_spec s) = rule
kind_of (dashboard_spec s) = dashboard

abbrev pub json_of : TypedSpec → Fields
json_of (user_spec s) = user_json s
json_of (service_account_spec s) = service_account_json s
json_of (route_policy_spec s) = route_policy_json s
json_of (role_spec s) = role_json s
json_of (planned_maintenance_spec s) = planned_maintenance_json s
json_of (auth_domain_spec s) = auth_domain_json s
json_of (notification_channel_spec s) = notification_channel_object_spec_json s
json_of (saved_view_spec s) = saved_view_object_spec_json s
json_of (rule_spec s) = rule_object_spec_json s
json_of (dashboard_spec s) = dashboard_object_spec_json s

abbrev pub identity_of : TypedSpec → String
identity_of (user_spec s) = s.email
identity_of (service_account_spec s) = s.name
identity_of (route_policy_spec s) = s.name
identity_of (role_spec s) = s.name
identity_of (planned_maintenance_spec s) = s.name
identity_of (auth_domain_spec s) = s.name
identity_of (notification_channel_spec s) = s.name
identity_of (saved_view_spec s) = s.name
identity_of (rule_spec s) = s.alert
identity_of (dashboard_spec s) = s.name

-- Is the field one that an update sends or one that may only be set at create?
abbrev pub is_known : Generated → String → Bool
is_known g k = listed k g.updatable_fields || listed k g.immutable_fields

abbrev all_known : Generated → Fields → Bool
all_known g end = true
all_known g (field k v rest) = is_known g k && all_known g rest

module _ (g : Generated) where
  and_both : (a b : Bool) → a ≡ true → b ≡ true → (a && b) ≡ true
  and_both true b ha hb = hb
  and_both false b ha hb = ha

  and_parts : (a b : Bool) → (a && b) ≡ true → (a ≡ true) × (b ≡ true)
  and_parts true b h = (refl, h)
  and_parts false b h = cc h

  omitempty-all_known :
      (empty : Bool) (k : String) (v : Value) (rest : Fields)
      → is_known g k ≡ true
      → all_known g rest ≡ true
      → all_known g (omitempty empty k v rest) ≡ true
  unfolding omitempty
  omitempty-all_known true k v rest listed_ rest_known = rest_known
  omitempty-all_known false k v rest listed_ rest_known = and_both _ _ listed_ rest_known

  omit_pointer-all_known :
      {A : Type 0} (fields : A → Fields) (k : String) (o : Option A) (rest : Fields)
      → is_known g k ≡ true
      → all_known g rest ≡ true
      → all_known g (omit_pointer fields k o rest) ≡ true
  omit_pointer-all_known fields k none rest = omitempty-all_known true k _ rest
  omit_pointer-all_known fields k (some a) rest = omitempty-all_known false k _ rest

  lookup-known :
      (fs : Fields) (k : String) (v : Value)
      → all_known g fs ≡ true
      → lookup k fs ≡ some v
      → is_known g k ≡ true
  unfolding lookup
  lookup-known end k v h found = cc found
  lookup-known (field j w fs) k v h found = elim (Bool-cases (str_eq j k)) [
    | inl here ↦ let e : j ≡ k = (eq_iff j k).0 here in rw e at (and_parts (is_known g j) _ h).0
    | inr other ↦ lookup-known fs k v (and_parts _ _ h).1 (rw other at found)
  ]

json_of-all_known : (t : TypedSpec) → all_known (generated (kind_of t)) (json_of t) ≡ true
unfolding build user_json service_account_json route_policy_json role_json planned_maintenance_json
    auth_domain_json notification_channel_object_spec_json saved_view_object_spec_json
    rule_object_spec_json dashboard_object_spec_json
json_of-all_known (user_spec s) = omitempty-all_known user_fields _ _ _ _ refl refl
json_of-all_known (service_account_spec s) = refl
json_of-all_known (route_policy_spec s) = omitempty-all_known route_policy_fields _ _ _ _ refl (
    omitempty-all_known route_policy_fields _ _ _ _ refl
      (omitempty-all_known route_policy_fields _ _ _ _ refl refl))
json_of-all_known (role_spec s) =
    omitempty-all_known role_fields _ _ _ _ refl (omitempty-all_known role_fields _ _ _ _ refl refl)
json_of-all_known (planned_maintenance_spec s) =
    omitempty-all_known planned_maintenance_fields _ _ _ _ refl (
      omitempty-all_known planned_maintenance_fields _ _ _ _ refl
        (omitempty-all_known planned_maintenance_fields _ _ _ _ refl refl))
json_of-all_known (auth_domain_spec s) =
    omitempty-all_known auth_domain_fields _ _ _ _ refl
      (omit_pointer-all_known auth_domain_fields role_mapping_json _ _ _ refl refl)
json_of-all_known (notification_channel_spec s) =
    omitempty-all_known notification_channel_fields _ _ _ _ refl
      (omitempty-all_known notification_channel_fields _ _ _ _ refl refl)
json_of-all_known (saved_view_spec s) = omitempty-all_known saved_view_fields _ _ _ _ refl refl
json_of-all_known (rule_spec s) = omitempty-all_known rule_fields _ _ _ _ refl (
    omitempty-all_known rule_fields _ _ _ _ refl (
      omitempty-all_known rule_fields _ _ _ _ refl
        (omitempty-all_known rule_fields _ _ _ _ refl refl)))
json_of-all_known (dashboard_spec s) =
    omitempty-all_known dashboard_fields _ _ _ _ refl
      (omitempty-all_known dashboard_fields _ _ _ _ refl refl)

lookup-omitempty_other :
    (empty : Bool) (k j : String) (v : Value) (rest : Fields)
    → str_eq k j ≡ false
    → lookup j (omitempty empty k v rest) ≡ lookup j rest
unfolding lookup omitempty
lookup-omitempty_other true k j v rest h = refl
lookup-omitempty_other false k j v rest h = rw h refl

lookup-omit_text :
    (k s : String) (rest : Fields)
    → str_eq s "" ≡ false
    → lookup k (omit_text k s rest) ≡ some (text s)
unfolding lookup omitempty
lookup-omit_text k s rest h = rw (h, eq_refl k) refl

lookup-identity :
    (t : TypedSpec)
    → str_eq (identity_of t) "" ≡ false
    → lookup (generated (kind_of t)).identity_field (json_of t) ≡ some (text (identity_of t))
unfolding build lookup notification_channel_object_spec_json saved_view_object_spec_json
    rule_object_spec_json dashboard_object_spec_json user_json service_account_json
    route_policy_json role_json planned_maintenance_json auth_domain_json
lookup-identity (user_spec s) h = refl
lookup-identity (service_account_spec s) h = refl
lookup-identity (route_policy_spec s) h = refl
lookup-identity (role_spec s) h = refl
lookup-identity (planned_maintenance_spec s) h = refl
lookup-identity (auth_domain_spec s) h = refl
lookup-identity (notification_channel_spec s) h =
    lookup-omitempty_other _ _ _ _ _ refl ∙ lookup-omit_text "name" s.name _ h
lookup-identity (saved_view_spec s) h = lookup-omit_text "name" s.name _ h
lookup-identity (rule_spec s) h = refl
lookup-identity (dashboard_spec s) h =
    lookup-omitempty_other _ _ _ _ _ refl ∙ lookup-omit_text "name" s.name _ h

-- Every field of the JSON of a typed spec, of each of the ten kinds, is one that an update sends or
-- one that may only be set at create, so that no field of a spec escapes the comparison; and the
-- field of the identity is there with the spec's own value, unless this is empty.
pub json_of-is_known :
    (t : TypedSpec)
    → ((k : String) (v : Value)
        → lookup k (json_of t) ≡ some v
        → is_known (generated (kind_of t)) k ≡ true)
      × (str_eq (identity_of t) "" ≡ false
          → lookup (generated (kind_of t)).identity_field (json_of t) ≡ some (text (identity_of t)))
json_of-is_known t = (
  λ k v. lookup-known (generated (kind_of t)) (json_of t) k v (json_of-all_known t),
  lookup-identity t,
)
