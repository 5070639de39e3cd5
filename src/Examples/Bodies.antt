-- ===== src/Examples/Bodies.antt =====
-- The theorems on JSON bodies and on the generated objects, at concrete inputs.
use Prim.Native.String
use signoz_operator.Prelude.{
  String, ◌≡◌, refl, true, some, none, [], ◌∷◌, ◌↔◌, get, put, RawMessage, listed, if◌then◌else◌,
  text_ne, str_eq, false, join,
}
use signoz_operator.Errors.{ok}
use signoz_operator.Clients
use signoz_operator.Clients.{Client}
use signoz_operator.Core.{SigNozResource, get_id_from_signoz_resource}
use signoz_operator.Resources.Object.{Kind}
use signoz_operator.JsonBody.Value.{Value, text, lookup}
use signoz_operator.JsonBody.Diff.{equal, diff}
use signoz_operator.JsonBody.Diff.Agrees.{agrees, rest_is_zero, equal-agrees}
use signoz_operator.JsonBody.Diff.Zeros.{held}
use signoz_operator.JsonBody.Diff.Bracketed.{diff-eq-nil}
use signoz_operator.JsonBody.Paths.{overlaps, intersect}
use signoz_operator.JsonBody.Paths.Dots.{has_dot}
use signoz_operator.JsonBody.Paths.Segments.{related, AreSegments, overlaps-related}
use signoz_operator.JsonBody.Paths.Common.{listed-intersect}
use signoz_operator.JsonBody.Render.{
  payload, marshal_payload, extract_fields, render, extract_string,
}
use signoz_operator.JsonBody.Render.Payload.{value_at, get-payload}
use signoz_operator.Objects.{Template, object, to_resource, body, update_of}
use signoz_operator.Objects.Kinds.{generated, role, role_fields}
use signoz_operator.Specs.Covered.{TypedSpec, role_spec, json_of, is_known, json_of-is_known}
use signoz_operator.Objects.Update.{Sends, to_update-Sends, to_resource-read}
use signoz_operator.Objects.Compare.{InSync, on_existing_object-InSync}
use signoz_operator.Reconciler.Pass.{CommonReconciler, Pass, read}
use signoz_operator.Reconciler.Drift.{IsGuarded, on_existing_object-IsGuarded}
use signoz_operator.Reconciler.Existing.{on_existing_object}
use signoz_operator.Samples.Json.{
  comparer, comparer-IsComparison, comparer-IsReporting, wanted, answered, library, template,
}
use signoz_operator.Samples.Configs.{resolved}
use signoz_operator.Samples.Passes.{reconciler_of, role_of, background}

equal-agrees_example : equal comparer wanted answered ≡ agrees wanted answered
equal-agrees_example = equal-agrees comparer comparer-IsComparison wanted answered

diff-eq-nil_example : (diff comparer wanted answered ≡ []) ↔ (agrees wanted answered ≡ true)
diff-eq-nil_example =
    diff-eq-nil comparer comparer-IsReporting comparer-IsComparison wanted answered

panels-AreSegments : AreSegments ("spec" ∷ "panels" ∷ [])
unfolding has_dot
panels-AreSegments = (text_ne _ _ refl, refl, (text_ne _ _ refl, refl, tt))

spec-AreSegments : AreSegments ("spec" ∷ [])
unfolding has_dot
spec-AreSegments = (text_ne _ _ refl, refl, tt)

overlaps-related_example :
    overlaps (join ("spec" ∷ "panels" ∷ []) ".") (join ("spec" ∷ []) ".")
    ≡ related ("spec" ∷ "panels" ∷ []) ("spec" ∷ [])
overlaps-related_example =
    overlaps-related ("spec" ∷ "panels" ∷ []) ("spec" ∷ []) panels-AreSegments spec-AreSegments

listed-intersect_example :
    (listed "spec" (intersect ("spec.panels" ∷ []) ("name" ∷ "spec" ∷ [])) ≡ true) ↔ (
      (listed "spec" ("name" ∷ "spec" ∷ []) ≡ true)
      × ((z : String) × (listed z ("spec.panels" ∷ []) ≡ true) × (overlaps "spec" z ≡ true)))
listed-intersect_example = listed-intersect ("spec.panels" ∷ []) ("name" ∷ "spec" ∷ []) "spec"

get-payload_example : get (payload library "viewer" ("description" ∷ []) []) "description" ≡ (
    if listed "description" ("description" ∷ [])
    then value_at library "viewer" "description"
    else none)
get-payload_example = get-payload library "viewer" ("description" ∷ []) "description"

abbrev role_object_of : Kind (Template String)
role_object_of = object library comparer (λ s. ok s) role_fields

sends : role_object_of.to_update template ≡ ok "viewer"
unfolding update_of extract_fields payload marshal_payload body render put
sends = refl

to_update-Sends_example :
    (rendered : RawMessage) × (body library comparer (λ s. ok s) template ≡ ok rendered)
    × Sends library (generated role) rendered "viewer"
to_update-Sends_example = to_update-Sends library comparer (λ s. ok s) role template "viewer" sends

abbrev item_of : String → String
item_of id = String.◌++◌ role_fields.collection_path (String.◌++◌ "/" id)

abbrev created_role : SigNozResource
created_role = record { id = some "7" }

recorded : role_object_of.to_signoz_resource "{}" ≡ ok created_role
unfolding to_resource extract_string
recorded = refl

to_resource-read_example :
    (id : String) × (get_id_from_signoz_resource (some created_role) ≡ ok id)
    × (extract_string library "{}" "data.id" ≡ ok id)
    × (role_object_of.read_method_and_path (some created_role)
        ≡ record { method = "GET"; path = item_of id })
    × (role_object_of.update_method_and_path (some created_role)
        ≡ record { method = "PUT"; path = item_of id })
    × (role_object_of.delete_method_and_path (some created_role)
        ≡ record { method = "DELETE"; path = item_of id })
to_resource-read_example =
    to_resource-read library comparer (λ s. ok s) role_fields "{}" created_role recorded

abbrev keeper : CommonReconciler (Template String)
keeper = reconciler_of role_object_of

abbrev seen : Pass (Template String)
seen = record { obj = role_of template; calls = [] }

abbrev client : Client
client = Clients.new resolved

in_sync : InSync library (body library comparer (λ s. ok s) template) "viewer"
unfolding body render agrees lookup held rest_is_zero
in_sync = refl

on_existing_object-InSync_example :
    (on_existing_object keeper background client "" seen).1.calls
    ≡ read background client seen.obj none (ok "viewer") ∷ []
on_existing_object-InSync_example =
    on_existing_object-InSync library comparer (λ s. ok s) role_fields comparer-IsComparison
      comparer-IsReporting keeper background client "" seen "viewer" refl refl in_sync refl

abbrev viewer_spec : TypedSpec
viewer_spec = role_spec (record { name = "viewer"; description = ""; transaction_groups = [] })

json_of-is_known_example :
    ((k : String) (v : Value)
      → lookup k (json_of viewer_spec) ≡ some v
      → is_known (generated role) k ≡ true)
    × (str_eq "viewer" "" ≡ false → lookup "name" (json_of viewer_spec) ≡ some (text "viewer"))
json_of-is_known_example = json_of-is_known viewer_spec

on_existing_object-IsGuarded_example :
    IsGuarded keeper background client "viewer" seen
      (on_existing_object keeper background client "viewer" seen).1.calls
on_existing_object-IsGuarded_example =
    on_existing_object-IsGuarded keeper background client "viewer" seen
