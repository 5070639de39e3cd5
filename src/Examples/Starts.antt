-- ===== src/Examples/Starts.antt =====
-- The theorems on the start of the process, at concrete inputs.
use signoz_operator.Prelude.{◌≡◌, ◌↔◌, ◌||◌, refl, true, [], str_eq, if◌then◌else◌, get, put}
use signoz_operator.Command.Config.{build_cache_options, namespaces_of, add_namespaces}
use signoz_operator.Command.Config.Watched.{
  watches, asked, is_empty, AllWatched, build_cache_options-watches, resolve_ref-AllWatched,
}
use signoz_operator.Command.Flags.{set, visit, from_environment, set_value}
use signoz_operator.Command.Flags.Merged.{AllRanked, set-AllRanked}
use signoz_operator.Command.Run.{run}
use signoz_operator.Command.Run.SetUp.{IsSetUp, run-IsSetUp}
use signoz_operator.ProviderConfig.Refs.{resolve_ref}
use signoz_operator.Core.{ProviderConfigRef}
use signoz_operator.Samples.Configs.{reader, configs}
use signoz_operator.Samples.Hosts.{host, deployed, new_manager, environment, flags}

run-IsSetUp_example : ((run host new_manager deployed).1 ≡ true) ↔ IsSetUp host new_manager deployed
run-IsSetUp_example = run-IsSetUp host new_manager deployed

build_cache_options-watches_example : watches (build_cache_options host deployed) "other" ≡ (
    if is_empty deployed.watch_namespaces
    then true
    else asked host deployed.watch_namespaces "other" || str_eq deployed.operator_namespace "other")
build_cache_options-watches_example = build_cache_options-watches host deployed "other"

team_watched : watches (build_cache_options host deployed) "team" ≡ true
unfolding build_cache_options namespaces_of add_namespaces get put
team_watched = refl

abbrev shared : ProviderConfigRef
shared = record { name = "prod"; kind = "ClusterProviderConfig" }

resolve_ref-AllWatched_example :
    AllWatched host
      (build_cache_options host deployed)
      (resolve_ref reader configs shared "team" "signoz-operator-system").1
resolve_ref-AllWatched_example =
    resolve_ref-AllWatched host deployed reader configs shared "team" team_watched

no_refusal : (set environment flags).1 ≡ []
unfolding set visit from_environment set_value
no_refusal = refl

set-AllRanked_example : AllRanked environment flags (set environment flags).0
set-AllRanked_example = set-AllRanked environment flags no_refusal
