-- ===== src/Command/Run.antt =====
-- run of cmd/main.go: the manager with its controllers.
pub mod SetUp
use signoz_operator.Prelude.{String, Bool, true, false, Option, none, some, List, [], ◌∷◌, concat}
use signoz_operator.Errors.{Error, Result, ok, err}
use signoz_operator.Objects.Kinds.{
  ResourceKind, auth_domain, dashboard, notification_channel, planned_maintenance, role,
  route_policy, rule, saved_view, service_account, user,
}
use signoz_operator.Controllers.Reconcilers.{
  Manager, Wiring, under, setup_provider_config, setup_cluster_provider_config, setup_user,
  setup_auth_domain, setup_dashboard, setup_saved_view, setup_planned_maintenance, setup_role,
  setup_route_policy, setup_rule, setup_service_account, setup_notification_channel,
}
use signoz_operator.Command.Config.{
  Config, Host, WebhookOptions, MetricsOptions, CacheOptions, build_config, build_cache_options,
  build_webhook_server_options, build_metrics_server_options,
}

-- ctrl.Options.
pub record Options : Type 0 where
  pub metrics : MetricsOptions
  pub webhook_server : WebhookOptions
  pub health_probe_bind_address : String
  pub leader_election : Bool
  pub leader_election_id : String
  pub cache : CacheOptions

-- A manager, with the errors of its two checks and of its run.
pub record Runtime : Type 0 where
  pub manager : Manager
  pub healthz : Option Error
  pub readyz : Option Error
  pub start : Option Error

unfoldable pub options_of : Host → Config → Options
options_of host c = record {
  metrics = build_metrics_server_options c;
  webhook_server = build_webhook_server_options c;
  health_probe_bind_address = c.health_probe_bind_address;
  leader_election = c.leader_elect;
  leader_election_id = "1f9508b2.signoz.io";
  cache = build_cache_options host c;
}

-- The arguments of NewCommonReconciler for a kind.
unfoldable pub wiring_of : Config → ResourceKind → Wiring
wiring_of c kind = record {
  adapter = kind;
  interval = c.default_resources_interval;
  retry_interval = c.default_resources_retry_interval;
  timeout = c.default_resources_timeout;
  operator_namespace = c.operator_namespace;
}

-- The steps between the manager's creation and its start, with what each fails under.
unfoldable pub steps_of : Config → Runtime → List (String × Option Error)
steps_of c r =
    ("could not create controller resources-providerconfig", setup_provider_config r.manager)
    ∷ (
      "could not create controller resources-clusterproviderconfig",
      setup_cluster_provider_config r.manager c.operator_namespace,
    )
    ∷ ("could not create controller resources-user", setup_user r.manager (wiring_of c user))
    ∷ (
      "could not create controller resources-authdomain",
      setup_auth_domain r.manager (wiring_of c auth_domain),
    )
    ∷ (
      "could not create controller resources-dashboard",
      setup_dashboard r.manager (wiring_of c dashboard),
    )
    ∷ (
      "could not create controller resources-savedview",
      setup_saved_view r.manager (wiring_of c saved_view),
    )
    ∷ (
      "could not create controller resources-plannedmaintenance",
      setup_planned_maintenance r.manager (wiring_of c planned_maintenance),
    )
    ∷ ("could not create controller resources-role", setup_role r.manager (wiring_of c role))
    ∷ (
      "could not create controller resources-routepolicy",
      setup_route_policy r.manager (wiring_of c route_policy),
    )
    ∷ ("could not create controller resources-rule", setup_rule r.manager (wiring_of c rule))
    ∷ (
      "could not create controller resources-serviceaccount",
      setup_service_account r.manager (wiring_of c service_account),
    )
    ∷ (
      "could not create controller resources-notificationchannel",
      setup_notification_channel r.manager (wiring_of c notification_channel),
    )
    ∷ ("could not set up health check", r.healthz)
    ∷ ("could not set up ready check", r.readyz)
    ∷ []

-- mgr.Start: the error that the process ends with, and that the manager was started.
unfoldable pub started : Option Error → Option Error × Bool
started none = (none, true)
started (some e) = (some (under "manager exited" e), true)

-- The first step that fails ends the run.
unfoldable pub after_steps : List (String × Option Error) → Option Error → Option Error × Bool
after_steps [] start = started start
after_steps ((message, some e) ∷ steps) start = (some (under message e), false)
after_steps ((message, none) ∷ steps) start = after_steps steps start

unfoldable pub after_manager : Config → Result Runtime → Option Error × Bool
after_manager c (err e) = (some (under "could not create manager" e), false)
after_manager c (ok r) = after_steps (steps_of c r) r.start

module _ (host : Host) (new_manager : Options → Result Runtime) where
  unfoldable pub after_build : Config → Option Error → Option Error × Bool
  after_build c (some e) = (some e, false)
  after_build c none = after_manager c (new_manager (options_of host c))

  unfoldable pub run : Config → Option Error × Bool
  run c = after_build c (build_config host c)
