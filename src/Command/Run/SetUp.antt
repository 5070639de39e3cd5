-- ===== src/Command/Run/SetUp.antt =====
-- What has been set up where the manager starts.
use signoz_operator.Prelude.{
  String, ◌≡◌, ◌↔◌, refl, true, false, Option, none, some, List, [], ◌∷◌, str_eq, Bool-cases, inl,
  inr,
}
use signoz_operator.Errors.{Error, Result, ok, err}
use signoz_operator.Objects.Kinds.{
  ResourceKind, auth_domain, dashboard, notification_channel, planned_maintenance, role,
  route_policy, rule, saved_view, service_account, user,
}
use signoz_operator.Controllers.Reconcilers.{
  Manager, Wiring, setup_provider_config, setup_cluster_provider_config, setup_user,
  setup_auth_domain, setup_dashboard, setup_saved_view, setup_planned_maintenance, setup_role,
  setup_route_policy, setup_rule, setup_service_account, setup_notification_channel,
}
use signoz_operator.Command.Config.{Config, Host, build_config, check_namespace}
use signoz_operator.Command.Run.{
  Options, Runtime, options_of, steps_of, wiring_of, started, after_steps, after_manager,
  after_build, run,
}

-- What the reconciler of each kind has to be made with: the adapter of that kind, the three default
-- durations of the configuration and the operator's namespace.
abbrev pub wanted : Config → ResourceKind → Wiring
wanted c kind = record {
  adapter = kind;
  interval = c.default_resources_interval;
  retry_interval = c.default_resources_retry_interval;
  timeout = c.default_resources_timeout;
  operator_namespace = c.operator_namespace;
}

-- The SetupWithManager of a kind's controller, whose reconciler is made so.
abbrev pub setup_of : Config → Manager → ResourceKind → Option Error
setup_of c m auth_domain = setup_auth_domain m (wanted c auth_domain)
setup_of c m dashboard = setup_dashboard m (wanted c dashboard)
setup_of c m notification_channel = setup_notification_channel m (wanted c notification_channel)
setup_of c m planned_maintenance = setup_planned_maintenance m (wanted c planned_maintenance)
setup_of c m role = setup_role m (wanted c role)
setup_of c m route_policy = setup_route_policy m (wanted c route_policy)
setup_of c m rule = setup_rule m (wanted c rule)
setup_of c m saved_view = setup_saved_view m (wanted c saved_view)
setup_of c m service_account = setup_service_account m (wanted c service_account)
setup_of c m user = setup_user m (wanted c user)

-- All of them passed.
abbrev AllPassed : List (String × Option Error) → Type 0
AllPassed [] = Unit {0}
AllPassed ((message, o) ∷ steps) = (o ≡ none) × AllPassed steps

steps-AllPassed :
    (steps : List (String × Option Error)) (start : Option Error)
    → (after_steps steps start).1 ≡ true
    → AllPassed steps
unfolding after_steps
steps-AllPassed [] start h = tt
steps-AllPassed ((message, some e) ∷ steps) start h = cc h
steps-AllPassed ((message, none) ∷ steps) start h = (refl, steps-AllPassed steps start h)

module _ (host : Host) (new_manager : Options → Result Runtime) where
  -- The configuration passed, the operator's namespace is no blank, the manager was created, and the
  -- controllers of both kinds of provider config and of each of the ten mirrored kinds were set up
  -- with it, each with the reconciler wanted for its kind, and both checks.
  pub record IsSetUp (c : Config) : Type 0 where
    pub built : build_config host c ≡ none
    pub namespace : str_eq (host.trim_space c.operator_namespace) "" ≡ false
    pub runtime : Runtime
    pub created : new_manager (options_of host c) ≡ ok runtime
    pub provider_configs : setup_provider_config runtime.manager ≡ none
    pub cluster_provider_configs :
        setup_cluster_provider_config runtime.manager c.operator_namespace ≡ none
    pub kinds : (k : ResourceKind) → setup_of c runtime.manager k ≡ none
    pub healthz : runtime.healthz ≡ none
    pub readyz : runtime.readyz ≡ none

  namespace-named :
      (o : Option Error) (namespace : String)
      → check_namespace host o namespace ≡ none
      → str_eq (host.trim_space namespace) "" ≡ false
  unfolding check_namespace
  namespace-named (some e) namespace h = cc h
  namespace-named none namespace h = elim (Bool-cases (str_eq (host.trim_space namespace) "")) [
    | inl blank ↦ cc (rw blank at h)
    | inr named ↦ named
  ]

  runtime-IsSetUp :
      (c : Config) (r : Runtime)
      → build_config host c ≡ none
      → str_eq (host.trim_space c.operator_namespace) "" ≡ false
      → new_manager (options_of host c) ≡ ok r
      → AllPassed (steps_of c r)
      → IsSetUp c
  unfolding steps_of wiring_of
  runtime-IsSetUp c r built named created
        (p, (cp, (u, (ad, (d, (sv, (pm, (ro, (rp, (ru, (sa, (nc, (hz, (rz, _)))))))))))))) =
      record {
        built = built;
        namespace = named;
        runtime = r;
        created = created;
        provider_configs = p;
        cluster_provider_configs = cp;
        kinds = λ k. elim k as (λ k. setup_of c r.manager k ≡ none) [
          | auth_domain ↦ ad
          | dashboard ↦ d
          | notification_channel ↦ nc
          | planned_maintenance ↦ pm
          | role ↦ ro
          | route_policy ↦ rp
          | rule ↦ ru
          | saved_view ↦ sv
          | service_account ↦ sa
          | user ↦ u
        ];
        healthz = hz;
        readyz = rz;
      }

  manager-IsSetUp :
      (c : Config) (answer : Result Runtime)
      → build_config host c ≡ none
      → str_eq (host.trim_space c.operator_namespace) "" ≡ false
      → new_manager (options_of host c) ≡ answer
      → (after_manager c answer).1 ≡ true
      → IsSetUp c
  unfolding after_manager
  manager-IsSetUp c (err e) built named created h = cc h
  manager-IsSetUp c (ok r) built named created h =
      runtime-IsSetUp c r built named created (steps-AllPassed _ r.start h)

  blank_apart :
      (c : Config)
      → build_config host c ≡ none
      → str_eq (host.trim_space c.operator_namespace) "" ≡ false
  unfolding build_config
  blank_apart c h = namespace-named _ c.operator_namespace h

  build-IsSetUp :
      (c : Config) (built : Option Error)
      → build_config host c ≡ built
      → (after_build host new_manager c built).1 ≡ true
      → IsSetUp c
  unfolding after_build
  build-IsSetUp c (some e) e' h = cc h
  build-IsSetUp c none built h = manager-IsSetUp c _ built (blank_apart c built) refl h

  run-sets_up : (c : Config) → (run host new_manager c).1 ≡ true → IsSetUp c
  unfolding run
  run-sets_up c h = build-IsSetUp c _ refl h

  passed-after_steps :
      (steps : List (String × Option Error)) (start : Option Error)
      → AllPassed steps
      → (after_steps steps start).1 ≡ true
  unfolding after_steps started
  passed-after_steps [] none h = refl
  passed-after_steps [] (some e) h = refl
  passed-after_steps ((message, o) ∷ steps) start (e, h) = rw e (passed-after_steps steps start h)

  set_up-run : (c : Config) → IsSetUp c → (run host new_manager c).1 ≡ true
  unfolding run after_build after_manager steps_of wiring_of
  set_up-run c s =
      rw (s.built, s.created)
        (passed-after_steps (steps_of c s.runtime) s.runtime.start (
          s.provider_configs,
          (
            s.cluster_provider_configs,
            (
              s.kinds user,
              (
                s.kinds auth_domain,
                (
                  s.kinds dashboard,
                  (
                    s.kinds saved_view,
                    (
                      s.kinds planned_maintenance,
                      (
                        s.kinds role,
                        (
                          s.kinds route_policy,
                          (
                            s.kinds rule,
                            (
                              s.kinds service_account,
                              (s.kinds notification_channel, (s.healthz, (s.readyz, tt))),
                            ),
                          ),
                        ),
                      ),
                    ),
                  ),
                ),
              ),
            ),
          ),
        ))

  -- The manager starts exactly where the configuration is valid, the operator's namespace is no
  -- blank, the manager was created, and both checks and all twelve controllers were set up with it,
  -- the reconciler of each mirrored kind with the adapter of the kind, the default durations and the
  -- operator's namespace: a step that fails ends the run before, and no other thing does.
  pub run-IsSetUp : (c : Config) → ((run host new_manager c).1 ≡ true) ↔ IsSetUp c
  run-IsSetUp c = (run-sets_up c, set_up-run c)
