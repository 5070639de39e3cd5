-- ===== src/Controllers/Reconcilers.antt =====
-- The Reconcile and SetupWithManager of the controllers. The ten generated controllers differ in the
-- names of their kind; `reconcile_request` and `setup_with_manager` have what they share.
use signoz_operator.Prelude.{
  String, Bool, not, Option, none, some, List, [], ◌∷◌, concat, str_eq, if◌then◌else◌, ℤ,
}
use signoz_operator.Errors.{Error, Result, ok, err, error_text, wrapped, foreign}
use signoz_operator.Kube.{ObjectMeta, is_zero_time}
use signoz_operator.Objects.Kinds.{ResourceKind}
use signoz_operator.Resources.Object.{Object}
use signoz_operator.ProviderConfig.Spec.{ProviderConfigSpec}
use signoz_operator.ProviderConfig.Cache.{Reader}
use signoz_operator.ProviderConfig.Status
use signoz_operator.ProviderConfig.Status.{ProviderConfigStatus, Write, StatusWriter}
use signoz_operator.Reconciler.Pass.{Context, Return, CommonReconciler, Event}
use signoz_operator.Reconciler.Reconcile.{reconcile_object}
use signoz_operator.Controllers.Watches.{
  provider_config_ref_index, secret_refs_index, config_map_refs_index,
}

-- The error of a read, unless the object is gone.
unfoldable pub ignore_not_found : (Error → Bool) → Error → Option Error
ignore_not_found is_api_not_found e = if is_api_not_found e then none else some e

module _ {T : Type 0} (rec : CommonReconciler T) (is_api_not_found : Error → Bool)
    (ctx : Context) where
  -- Reconcile of a mirrored resource, of what client.Get answers for the request's key.
  unfoldable pub reconcile_request : Result (Object T) → Return × List (Event T)
  reconcile_request (err e) =
      (record { requeue_after = ℤ.pos 0; error = ignore_not_found is_api_not_found e }, [])
  reconcile_request (ok obj) =
      let (r, s) = reconcile_object rec ctx (record { obj = obj; calls = [] }) in (r, s.calls)

pub record ConfigObject : Type 0 where
  pub meta : ObjectMeta
  pub spec : ProviderConfigSpec
  pub status : ProviderConfigStatus

module _ (w : StatusWriter) (reader : Reader) (is_api_not_found : Error → Bool) where
  -- Reconcile of a provider config of either kind, whose references are read in the namespace.
  unfoldable pub reconcile_config :
      (ConfigObject → String) → Result ConfigObject → Option Error × List Write
  reconcile_config namespace_of (err e) = (ignore_not_found is_api_not_found e, [])
  reconcile_config namespace_of (ok config) =
      if not (is_zero_time config.meta.deletion_timestamp)
      then (none, [])
      else (let (e, status, written) =
            Status.reconcile w reader config.meta.generation config.spec (namespace_of config)
              config.status in
          (e, written))

  unfoldable pub reconcile_provider_config : Result ConfigObject → Option Error × List Write
  reconcile_provider_config = reconcile_config (λ config. config.meta.namespace)

  unfoldable pub reconcile_cluster_provider_config :
      String → Result ConfigObject → Option Error × List Write
  reconcile_cluster_provider_config operator_namespace =
      reconcile_config (λ config. operator_namespace)

-- What the reconciler of a mirrored kind is made with: its adapter, by the kind that this is for, the
-- defaults of an object's durations, and the operator's namespace. The client and the resolver are
-- the same for all.
pub record Wiring : Type 0 where
  pub adapter : ResourceKind
  pub interval : ℤ
  pub retry_interval : ℤ
  pub timeout : ℤ
  pub operator_namespace : String

-- The reconciler that a controller calls: the one of both kinds of provider config, which reads the
-- references of the objects in their own namespace or in the operator's, or the one of a kind.
pub data ControllerReconciler : Type 0 where
  provider_config_reconciler : ControllerReconciler
  cluster_provider_config_reconciler : String → ControllerReconciler
  common_reconciler : Wiring → ControllerReconciler

-- A controller as it is built: what it is for, what else it watches, its name, and its reconciler.
pub record Registration : Type 0 where
  pub for_kind : String
  pub watches : List String
  pub name : String
  pub reconciler : ControllerReconciler

-- The manager: IndexField, given the kind and the index, and Complete.
pub record Manager : Type 0 where
  pub index_field : String → String → Option Error
  pub complete : Registration → Option Error

unfoldable pub under : String → Error → Error
under message e = wrapped (concat (message ∷ ": " ∷ error_text e ∷ [])) e

-- With the index registered, or not.
unfoldable pub indexed_then : String → Option Error → Option Error → Option Error
unfolding under
indexed_then message none next = next
indexed_then message (some e) next = some (under message e)

module _ (m : Manager) where
  unfoldable pub setup_with_manager : String → String → Wiring → Option Error
  setup_with_manager kind name wiring =
      indexed_then (concat ("could not index " ∷ kind ∷ " provider config references" ∷ []))
        (m.index_field kind provider_config_ref_index)
        (m.complete (record {
          for_kind = kind;
          watches = "ProviderConfig" ∷ "ClusterProviderConfig" ∷ [];
          name = name;
          reconciler = common_reconciler wiring;
        }))

  setup_references : String → String → ControllerReconciler → Option Error
  setup_references kind name reconciler =
      indexed_then (concat ("could not index " ∷ kind ∷ " Secret references" ∷ []))
        (m.index_field kind secret_refs_index)
        (indexed_then (concat ("could not index " ∷ kind ∷ " ConfigMap references" ∷ []))
          (m.index_field kind config_map_refs_index)
          (m.complete (record {
            for_kind = kind;
            watches = "Secret" ∷ "ConfigMap" ∷ [];
            name = name;
            reconciler = reconciler;
          })))

  unfoldable pub setup_provider_config : Option Error
  unfolding setup_references
  setup_provider_config =
      setup_references "ProviderConfig" "resources-providerconfig" provider_config_reconciler

  unfoldable pub setup_cluster_provider_config : String → Option Error
  unfolding setup_references
  setup_cluster_provider_config operator_namespace =
      if str_eq operator_namespace ""
      then some
          (foreign "operator namespace is required to resolve ClusterProviderConfig references")
      else setup_references "ClusterProviderConfig" "resources-clusterproviderconfig"
          (cluster_provider_config_reconciler operator_namespace)

  unfoldable pub setup_auth_domain : Wiring → Option Error
  setup_auth_domain = setup_with_manager "AuthDomain" "resources-authdomain"

  unfoldable pub setup_dashboard : Wiring → Option Error
  setup_dashboard = setup_with_manager "Dashboard" "resources-dashboard"

  unfoldable pub setup_notification_channel : Wiring → Option Error
  setup_notification_channel =
      setup_with_manager "NotificationChannel" "resources-notificationchannel"

  unfoldable pub setup_planned_maintenance : Wiring → Option Error
  setup_planned_maintenance = setup_with_manager "PlannedMaintenance" "resources-plannedmaintenance"

  unfoldable pub setup_role : Wiring → Option Error
  setup_role = setup_with_manager "Role" "resources-role"

  unfoldable pub setup_route_policy : Wiring → Option Error
  setup_route_policy = setup_with_manager "RoutePolicy" "resources-routepolicy"

  unfoldable pub setup_rule : Wiring → Option Error
  setup_rule = setup_with_manager "Rule" "resources-rule"

  unfoldable pub setup_saved_view : Wiring → Option Error
  setup_saved_view = setup_with_manager "SavedView" "resources-savedview"

  unfoldable pub setup_service_account : Wiring → Option Error
  setup_service_account = setup_with_manager "ServiceAccount" "resources-serviceaccount"

  unfoldable pub setup_user : Wiring → Option Error
  setup_user = setup_with_manager "User" "resources-user"
