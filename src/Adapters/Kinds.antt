-- ===== src/Adapters/Kinds.antt =====
-- The Find of each adapter in internal/resources/adapters.
use signoz_operator.Prelude.{
  ℕ, String, Bool, not, Option, some, List, [], ◌∷◌, str_eq, concat, if◌then◌else◌, RawMessage,
}
use signoz_operator.Errors.{Result, ok, err, new, wrap, internal}
use signoz_operator.Adapters.Exchange.{SigNoz, Talk, exchange}
use signoz_operator.Adapters.Find.{Matches, get_request, find_by_field, find_by_page}

-- One entry of a list of users or of saved views, with its email or its name.
pub record Entry : Type 0 where
  pub id : String
  pub name : String

-- The library routines: json.Unmarshal of a list of entries by the key of their name,
-- strings.EqualFold and url.QueryEscape.
pub record Entries : Type 0 where
  pub unmarshal : String → String → Result (List Entry)
  pub equal_fold : String → String → Bool
  pub query_escape : String → String

unfoldable pub matching : (String → Bool) → List Entry → Matches
matching same [] = []
matching same (e ∷ es) =
    let rest = matching same es in
    if same e.name then some (record { id = some e.id }) ∷ rest else rest

module _ {J : Type 0} (c : SigNoz J) (entries : Entries) where
  unmarshalled : String → (String → Bool) → Result (List Entry) → Result Matches
  unmarshalled message same (err e) = err (wrap e internal message)
  unmarshalled message same (ok es) = ok (matching same es)

  unfoldable pub listed : String → String → (String → Bool) → Result RawMessage → Result Matches
  unfolding unmarshalled
  listed key message same (err e) = err e
  listed key message same (ok body) =
      let data_ = c.gjson.get_bytes body "data" in
      if not (c.gjson.exists data_)
      then err (new internal "find: response carries no data")
      else unmarshalled message same (entries.unmarshal key (c.gjson.raw data_))

  unfoldable pub find_user : Result String → Talk (Result Matches)
  find_user (err e) h = (err e, h)
  find_user (ok identity) h =
      let (body, h') = exchange c (get_request "/api/v2/users") h in
      (
        listed "email" "find: could not parse user list"
            (λ email. entries.equal_fold email identity) body,
        h',
      )

  unfoldable pub find_saved_view : Result String → Talk (Result Matches)
  find_saved_view (err e) h = (err e, h)
  find_saved_view (ok identity) h =
      let path = concat ("/api/v2/saved_views" ∷ "?name=" ∷ entries.query_escape identity ∷ []) in
      let (body, h') = exchange c (get_request path) h in
      (
        listed "name" "find: could not parse saved view list" (λ name. str_eq name identity) body,
        h',
      )

module _ {J : Type 0} (c : SigNoz J) (identity : Result String) where
  unfoldable pub find_auth_domain : Talk (Result Matches)
  find_auth_domain = find_by_field c identity "/api/v2/auth_domains" "name"

  unfoldable pub find_planned_maintenance : Talk (Result Matches)
  find_planned_maintenance = find_by_field c identity "/api/v1/downtime_schedules" "name"

  unfoldable pub find_role : Talk (Result Matches)
  find_role = find_by_field c identity "/api/v1/roles" "name"

  unfoldable pub find_route_policy : Talk (Result Matches)
  find_route_policy = find_by_field c identity "/api/v1/route_policies" "name"

  unfoldable pub find_rule : Talk (Result Matches)
  find_rule = find_by_field c identity "/api/v2/rules" "alert"

  unfoldable pub find_service_account : Talk (Result Matches)
  find_service_account = find_by_field c identity "/api/v1/service_accounts" "name"

  unfoldable pub find_dashboard : ℕ → Talk (Option (Result Matches))
  find_dashboard fuel = find_by_page c fuel identity "/api/v2/dashboards" "dashboards"

  unfoldable pub find_notification_channel : ℕ → Talk (Option (Result Matches))
  find_notification_channel fuel =
      find_by_page c fuel identity "/api/v2/notification_channels" "channels"
