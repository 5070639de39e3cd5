-- ===== src/Examples.antt =====
-- The theorems at concrete inputs.
mod Bodies
mod Requeues
mod Requests
mod Starts
use signoz_operator.Prelude.{
  listed, arith, ◌≡◌, refl, true, false, some, none, [], ◌∷◌, List, Option, is_positive, ◌↔◌, ◌≤◌,
  ◌<◌, concat, get, put,
}
use signoz_operator.Errors.{
  Error, ok, based, not_found, new_from_http_response, is_retryable, is_not_found,
  is_already_exists,
}
use signoz_operator.Errors.Http.{new_from_http_response-some}
use signoz_operator.Core.{SigNozResource}
use signoz_operator.Resources.Reason.{outcome_recoverable, backend_error}
use signoz_operator.Resources.Condition.{outcome_on_err}
use signoz_operator.Resources.Condition.Http.{outcome_on_err-new_from_http_response}
use signoz_operator.Reconciler.Reconcile.{reconcile, reconcile_object, without_cancel}
use signoz_operator.Reconciler.New.{find_pinned}
use signoz_operator.Reconciler.Settled.{Ends, schedule}
use signoz_operator.Reconciler.Settled.Outcome.{reconcile-Ends}
use signoz_operator.Reconciler.Invariant.Whole.{bounded}
use signoz_operator.Reconciler.Invariant.Calls.{
  IsMarked, IsTimed, reconcile_object-IsMarked, reconcile_object-IsTimed,
}
use signoz_operator.Reconciler.Intervals.{schedule_positive}
use signoz_operator.Reconciler.Pinned.{IsPinned, find_pinned-IsPinned}
use signoz_operator.Reconciler.Released.{IsReleased, finalize-IsReleased}
use signoz_operator.Reconciler.Finalize.{finalize}
use signoz_operator.Core.{ProviderConfigRef}
use signoz_operator.ProviderConfig.Spec.{
  secret_names, config_map_names, secrets_of, config_maps_of, value_sources, add_secret,
  add_config_map, add_name,
}
use signoz_operator.ProviderConfig.Cache.{secret_kind, referent, recall, fetch, record_read}
use signoz_operator.ProviderConfig.Cache.Once.{times_read}
use signoz_operator.ProviderConfig.Resolver.{
  resolve, resolve_fields, read_all, new_cache, endpoint, authentication, trust, value_of, sourced,
  key_value, at_path, key_of, and_then, check_url, header_of,
}
use signoz_operator.ProviderConfig.Resolver.Reads.{names_of, resolve-reads_once, resolve-reads_all}
use signoz_operator.ProviderConfig.Status
use signoz_operator.ProviderConfig.Status.Ready.{
  IsReported, IsSaved, StoresConditions, reconcile-IsReported,
}
use signoz_operator.ProviderConfig.Refs.{resolve_ref}
use signoz_operator.ProviderConfig.Refs.Confined.{AllIn, resolve_ref-AllIn}
use signoz_operator.ProviderConfig.Resolver.Valid.{IsUsable, resolve-IsUsable}
use signoz_operator.Adapters.Find.{collect, find_by_page}
use signoz_operator.Adapters.Find.Pages.{is_some, find_by_page_ends}
use signoz_operator.Adapters.Find.Whole.{find_by_page-collect}
use signoz_operator.Samples.Pages.{shop, things, shop-IsBounded, shop-Serves}
use signoz_operator.Samples.Configs.{reader, prod, resolved, configs, writer, empty_provider_status}
use signoz_operator.Samples.Helpers.{helpers-IsConditionList}
use signoz_operator.Samples.Passes.{reconciler, viewer, fresh, background, formatting, leaving}

reconcile-Ends_example :
    Ends reconciler
      (reconcile reconciler background fresh).0
      (reconcile reconciler background fresh).1
reconcile-Ends_example = reconcile-Ends reconciler helpers-IsConditionList background fresh

reconcile_object-IsMarked_example : IsMarked (reconcile_object reconciler background fresh).1.calls
reconcile_object-IsMarked_example = reconcile_object-IsMarked reconciler background fresh tt

reconcile_object-IsTimed_example :
    IsTimed
      (without_cancel background)
      (bounded reconciler background viewer)
      (reconcile_object reconciler background fresh).1.calls
reconcile_object-IsTimed_example = reconcile_object-IsTimed reconciler background fresh refl

-- The error of a 404 with no body.
abbrev gone : Error
gone = based not_found "Unknown" "the server could not find the object (HTTP n)"

gone_lem : new_from_http_response formatting 404 "" ≡ some gone
unfolding new_from_http_response concat
gone_lem = refl

new_from_http_response-some_example :
    (is_retryable gone ≡ true) × (is_not_found gone ≡ true) × (is_already_exists gone ≡ false)
new_from_http_response-some_example = new_from_http_response-some formatting 404 "" gone_lem

outcome_on_err-new_from_http_response_example :
    outcome_on_err gone ≡ (outcome_recoverable, backend_error)
outcome_on_err-new_from_http_response_example =
    outcome_on_err-new_from_http_response formatting 404 "" gone_lem

schedule_positive_example : is_positive (schedule reconciler viewer outcome_recoverable) ≡ true
schedule_positive_example =
    schedule_positive reconciler viewer outcome_recoverable refl refl (λ e. cc) (λ e. cc)

abbrev candidates : List (Option SigNozResource)
candidates = some (record { id = none }) ∷ some (record { id = some "7" }) ∷ []

find_pinned-IsPinned_example : IsPinned "7" candidates (find_pinned "7" candidates)
find_pinned-IsPinned_example = find_pinned-IsPinned "7" candidates

finalize-IsReleased_example :
    IsReleased reconciler leaving.obj (finalize reconciler background leaving).1.calls
finalize-IsReleased_example = finalize-IsReleased reconciler background leaving tt

resolve_prod : (resolve reader "team" prod).0 ≡ ok resolved
unfolding resolve resolve_fields read_all new_cache endpoint authentication trust value_of sourced
    key_value at_path key_of and_then check_url header_of referent recall fetch record_read
    secret_names config_map_names secrets_of config_maps_of value_sources add_secret add_config_map
    add_name get put concat
resolve_prod = refl

resolve-IsUsable_example : IsUsable resolved
resolve-IsUsable_example = resolve-IsUsable reader "team" prod resolved resolve_prod

resolve-reads_once_example : times_read secret_kind "keys" (resolve reader "team" prod).1.reads ≤ 1
resolve-reads_once_example = resolve-reads_once reader "team" prod secret_kind "keys"

keys_listed : listed "keys" (names_of reader prod secret_kind) ≡ true
unfolding secret_names secrets_of value_sources add_secret add_name put
keys_listed = refl

resolve-reads_all_example : times_read secret_kind "keys" (resolve reader "team" prod).1.reads ≡ 1
resolve-reads_all_example = resolve-reads_all reader "team" prod secret_kind "keys" keys_listed

abbrev shared : ProviderConfigRef
shared = record { name = "prod"; kind = "ClusterProviderConfig" }

resolve_ref-AllIn_example :
    AllIn "signoz-operator-system"
      (resolve_ref reader configs shared "team" "signoz-operator-system").1
resolve_ref-AllIn_example = resolve_ref-AllIn reader configs shared "team" "signoz-operator-system"

find_by_page_ends_example :
    is_some shop (find_by_page shop 2 (ok "viewer") "/things" "dashboards" []).0 ≡ true
find_by_page_ends_example =
    find_by_page_ends shop 1 1 (ok "viewer") "/things" "dashboards" [] shop-IsBounded (omega arith)

find_by_page-collect_example :
    (find_by_page shop 2 (ok "viewer") "/things" "dashboards" []).0
    ≡ some (collect shop "viewer" "name" things)
find_by_page-collect_example =
    find_by_page-collect shop "viewer" "/things" "dashboards" things 1 [] shop-Serves (omega arith)

writer-StoresConditions : StoresConditions writer helpers-IsConditionList
writer-StoresConditions = record { stored = λ status kept e. cc e; equal = λ s t h. cc h }

reconcile-IsReported_example :
    IsReported writer helpers-IsConditionList
      (resolve reader "team" prod).0
      (Status.reconcile writer reader 1 prod "team" empty_provider_status).1.conditions
    × IsSaved writer helpers-IsConditionList
        (resolve reader "team" prod).0
        empty_provider_status
        (Status.reconcile writer reader 1 prod "team" empty_provider_status).0
        (Status.reconcile writer reader 1 prod "team" empty_provider_status).2
reconcile-IsReported_example =
    reconcile-IsReported writer helpers-IsConditionList writer-StoresConditions reader 1 prod "team"
      empty_provider_status
