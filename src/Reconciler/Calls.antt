-- ===== src/Reconciler/Calls.antt =====
-- The calls that a pass makes, each recorded with its answer, and the helpers around them: the
-- finalizer, the create-attempt annotation, the client of the provider config, the intervals.
use signoz_operator.Prelude.{
  ℕ, String, Option, none, some, List, ◌∷◌, ℤ, is_positive, if◌then◌else◌, Dict, get, put, delete,
  RawMessage,
}
use signoz_operator.Errors.{Error, Result, ok, err}
use signoz_operator.Core.{SigNozResource, CoreStatus, resource_finalizer, annotation_create_attempt}
use signoz_operator.ProviderConfig.Resolved.{ResolvedProviderConfigSpec}
use signoz_operator.Clients.{Client}
use signoz_operator.Clients
use signoz_operator.Resources.Object.{Object}
use signoz_operator.Resources.Reason.{Reason, ReconcilerOutcome}
use signoz_operator.Resources.Condition.{set_conditions_on_outcome}
use signoz_operator.Reconciler.Pass.{
  Context, Return, updated, patched, status_updated, resolved, found, created, read, remote_updated,
  remote_deleted, CommonReconciler, Step, pure, modify, ◌>>=◌, done, failed,
}

-- The object with other finalizers, annotations or status.
abbrev pub with_finalizers : {T : Type 0} → List String → Object T → Object T
with_finalizers fs obj = record obj { meta = record obj.meta { finalizers = fs } }

abbrev pub with_annotations : {T : Type 0} → Dict String → Object T → Object T
with_annotations as_ obj = record obj { meta = record obj.meta { annotations = as_ } }

abbrev pub with_status : {T : Type 0} → CoreStatus → Object T → Object T
with_status status obj = record obj { status = status }

abbrev pub with_signoz_resource : {T : Type 0} → Option SigNozResource → Object T → Object T
with_signoz_resource r obj = record obj { status = record obj.status { signoz_resource = r } }

abbrev pub with_observed_hash : {T : Type 0} → String → Object T → Object T
with_observed_hash hash obj = record obj { status = record obj.status { observed_hash = hash } }

-- The error of an answer; an object that the API server answered replaces the one in memory.
abbrev pub error_of : {A : Type 0} → Result A → Option Error
error_of (ok a) = none
error_of (err e) = some e

abbrev pub answered : {T : Type 0} → Object T → Result (Object T) → Object T
answered obj (ok obj') = obj'
answered obj (err e) = obj

module _ {T : Type 0} (rec : CommonReconciler T) (ctx : Context) where
  unfoldable pub client_update : Object T → Step T (Option Error)
  client_update obj s =
      let answer = rec.client.update s.calls ctx obj in
      (
        error_of answer,
        record { obj = answered obj answer; calls = updated ctx obj answer ∷ s.calls },
      )

  unfoldable pub client_patch : Object T → Object T → Step T (Option Error)
  client_patch before obj s =
      let answer = rec.client.patch s.calls ctx before obj in
      (
        error_of answer,
        record { obj = answered obj answer; calls = patched ctx before obj answer ∷ s.calls },
      )

  unfoldable pub client_update_status : Step T (Option Error)
  client_update_status s =
      let answer = rec.client.update_status s.calls ctx s.obj in
      (
        error_of answer,
        record { obj = answered s.obj answer; calls = status_updated ctx s.obj answer ∷ s.calls },
      )

  unfoldable pub adapter_find : Client → Step T (Result (List (Option SigNozResource)))
  adapter_find c s =
      let answer = rec.adapter.find s.calls ctx c s.obj in
      (answer, record s { calls = found ctx c s.obj answer ∷ s.calls })

  unfoldable pub adapter_create : Client → Step T (Result (Option SigNozResource))
  adapter_create c s =
      let answer = rec.adapter.create s.calls ctx c s.obj in
      (answer, record s { calls = created ctx c s.obj answer ∷ s.calls })

  unfoldable pub adapter_read : Client → Option SigNozResource → Step T (Result RawMessage)
  adapter_read c r s =
      let answer = rec.adapter.read s.calls ctx c s.obj r in
      (answer, record s { calls = read ctx c s.obj r answer ∷ s.calls })

  unfoldable pub adapter_update : Client → Option SigNozResource → Step T (Option Error)
  adapter_update c r s =
      let answer = rec.adapter.update s.calls ctx c s.obj r in
      (answer, record s { calls = remote_updated ctx c s.obj r answer ∷ s.calls })

  unfoldable pub adapter_delete : Client → Option SigNozResource → Step T (Option Error)
  adapter_delete c r s =
      let answer = rec.adapter.delete s.calls ctx c s.obj r in
      (answer, record s { calls = remote_deleted ctx c s.obj r answer ∷ s.calls })

  unfoldable pub add_finalizer : Step T (Option Error)
  add_finalizer s =
      let (fs, changed) = rec.kube.add_finalizer s.obj.meta.finalizers resource_finalizer in
      if changed then client_update (with_finalizers fs s.obj) s else (none, s)

  return_of : Option Error → Return
  return_of none = done
  return_of (some e) = failed e

  unfoldable pub remove_finalizer : Step T Return
  unfolding return_of
  remove_finalizer s =
      let (fs, changed) = rec.kube.remove_finalizer s.obj.meta.finalizers resource_finalizer in
      if changed
      then (do e ← client_update (with_finalizers fs s.obj); pure (return_of e)) s
      else (done, s)

  -- MergeFrom copies the object before the change.
  unfoldable pub add_create_attempt_annotation : Step T (Option Error)
  add_create_attempt_annotation s =
      let now = rec.formatting.rfc3339 (rec.clock s.calls) in
      let annotations = put s.obj.meta.annotations annotation_create_attempt now in
      client_patch s.obj (with_annotations annotations s.obj) s

  -- With the annotation there, or not.
  unfoldable pub remove_attempt : Option String → Step T (Option Error)
  remove_attempt none s = (none, s)
  remove_attempt (some attempt) s =
      client_patch s.obj
        (with_annotations (delete s.obj.meta.annotations annotation_create_attempt) s.obj) s

  unfoldable pub remove_create_attempt_annotation : Step T (Option Error)
  remove_create_attempt_annotation s =
      remove_attempt (get s.obj.meta.annotations annotation_create_attempt) s

  client_of : Result ResolvedProviderConfigSpec → Result Client
  unfolding Clients.new
  client_of (ok r) = ok (Clients.new r)
  client_of (err e) = err e

  unfoldable pub signoz_client_for : Step T (Result Client)
  unfolding client_of
  signoz_client_for s =
      let ref = s.obj.spec.provider_config_ref in
      let answer =
        rec.resolver.resolve_ref s.calls ctx ref s.obj.meta.namespace rec.operator_namespace in
      (
        client_of answer,
        record s {
          calls = resolved ctx ref s.obj.meta.namespace rec.operator_namespace answer ∷ s.calls;
        },
      )

-- A duration of the spec if it is set and positive.
abbrev pub positive_or : Option ℤ → ℤ → ℤ
positive_or none default = default
positive_or (some d) default = if is_positive d then d else default

module _ {T : Type 0} (rec : CommonReconciler T) (obj : Object T) where
  unfoldable pub timeout : ℤ
  timeout = positive_or obj.spec.timeout rec.default_timeout

  unfoldable pub interval : ℤ
  interval = positive_or obj.spec.interval rec.default_interval

  unfoldable pub retry_interval : ℤ
  retry_interval = positive_or obj.spec.retry_interval (
      positive_or obj.spec.interval (
        if is_positive rec.default_retry_interval
        then rec.default_retry_interval
        else rec.default_interval))

module _ {T : Type 0} (rec : CommonReconciler T) where
  -- A call of SetConditionsOnOutcome on the status of the object.
  unfoldable pub report : ℕ → ReconcilerOutcome → Reason → String → Step T (Unit {0})
  report generation outcome reason message s =
      modify
        (λ obj.
          with_status
            (set_conditions_on_outcome rec.kube (rec.clock s.calls) generation reason message
              outcome obj.status)
            obj)
        s
