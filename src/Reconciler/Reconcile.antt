-- ===== src/Reconciler/Reconcile.antt =====
-- Reconcile and reconcile of commonReconciler. The exported method is `reconcile_object`.
use signoz_operator.Prelude.{
  ℕ, ℤ, String, Option, none, some, [], ◌∷◌, if◌then◌else◌, is_positive, concat, not,
}
use signoz_operator.Errors.{Error, Result, ok, err, error_text}
use signoz_operator.Kube.{is_zero_time}
use signoz_operator.Core.{CoreStatus, CoreStatus-discrete, get_id_from_signoz_resource}
use signoz_operator.Clients.{Client}
use signoz_operator.Resources.Reason.{
  suspended, invalid_spec, provider_config_not_ready, outcome_suspended, outcome_terminal,
  outcome_recoverable,
}
use signoz_operator.Reconciler.Pass.{
  Context, Return, CommonReconciler, Step, pure, gets, modify, ◌>>=◌, ◌>>◌, done, requeue, failed,
}
use signoz_operator.Reconciler.Calls.{
  with_status, add_finalizer, remove_create_attempt_annotation, signoz_client_for, timeout,
  retry_interval, report, client_update_status,
}
use signoz_operator.Reconciler.Existing.{on_existing_object}
use signoz_operator.Reconciler.New.{on_new_object}
use signoz_operator.Reconciler.Finalize.{finalize}

-- context.WithTimeout and context.WithoutCancel.
abbrev pub with_timeout : Context → ℤ → Context
with_timeout ctx d = record { timeouts = d ∷ ctx.timeouts }

abbrev pub without_cancel : Context → Context
without_cancel ctx = record { timeouts = [] }

module _ {T : Type 0} (rec : CommonReconciler T) where
  module _ (ctx : Context) where
    unfoldable pub after_unmark : Client → String → Option Error → Step T Return
    after_unmark c hash (some e) = pure (failed e)
    after_unmark c hash none = on_existing_object rec ctx c hash

    unfoldable pub known : Client → String → Step T Return
    known c hash = do
      failure ← remove_create_attempt_annotation rec ctx
      after_unmark c hash failure

    unfoldable pub by_id : Client → String → String → Result String → Step T Return
    by_id c identity hash (err e) = on_new_object rec ctx c identity hash
    by_id c identity hash (ok id) = known c hash

    unfoldable pub after_client : ℕ → String → String → Result Client → Step T Return
    after_client generation identity hash (err e) = do
      report rec generation outcome_recoverable provider_config_not_ready (error_text e)
      gets (λ s. requeue (retry_interval rec s.obj))
    after_client generation identity hash (ok c) =
        λ s. by_id c identity hash (get_id_from_signoz_resource s.obj.status.signoz_resource) s

    unfoldable pub refuse_spec : ℕ → String → Error → Step T Return
    refuse_spec generation what e = do
      report rec generation outcome_terminal invalid_spec (concat (what ∷ error_text e ∷ []))
      pure done

    unfoldable pub after_hash : ℕ → String → Result String → Step T Return
    after_hash generation identity (err e) = refuse_spec generation "could not calculate hash: " e
    after_hash generation identity (ok hash) = do
      client ← signoz_client_for rec ctx
      after_client generation identity hash client

    unfoldable pub after_identity : ℕ → Result String → Step T Return
    after_identity generation (err e) = refuse_spec generation "could not derive identity: " e
    after_identity generation (ok identity) =
        λ s. after_hash generation identity (rec.kind.hash s.obj.template) s

    unfoldable pub reconcile : Step T Return
    reconcile s =
        if s.obj.spec.suspend
        then (do
          report rec s.obj.meta.generation outcome_suspended suspended
              "reconciliation is suspended by spec.suspend"
          pure done)
            s
        else after_identity s.obj.meta.generation (rec.kind.identity s.obj.template) s

    unfoldable pub after_status_write : Return → Option Error → Return
    after_status_write r none = r
    after_status_write r (some e) = failed e

    unfoldable pub write_status : Return → Step T Return
    write_status r = do
      now ← gets (λ s. rec.clock s.calls)
      modify (λ obj. with_status (record obj.status { reconciled_at = now }) obj)
      failure ← client_update_status rec (without_cancel ctx)
      pure (after_status_write r failure)

    unfoldable pub write_if_changed : {P : Type 0} → Dec P → Return → Step T Return
    write_if_changed (yes same) r = pure r
    write_if_changed (no changed) r = write_status r

    -- The status is written if the pass has changed it, without the timeout of the pass.
    unfoldable pub record_status : CoreStatus → Return → Step T Return
    record_status before r s = write_if_changed (CoreStatus-discrete before s.obj.status) r s

    unfoldable pub after_finalizer : Option Error → Step T Return
    after_finalizer (some e) = pure (failed e)
    after_finalizer none = do
      before ← gets (λ s. s.obj.status)
      r ← reconcile
      record_status before r

    unfoldable pub pass_of : Step T Return
    pass_of s =
        if not (is_zero_time s.obj.meta.deletion_timestamp)
        then finalize rec ctx s
        else (do failure ← add_finalizer rec ctx; after_finalizer failure) s

  -- Reconcile: the timeout of the object bounds everything that follows.
  unfoldable pub reconcile_object : Context → Step T Return
  reconcile_object ctx s =
      let d = timeout rec s.obj in pass_of (if is_positive d then with_timeout ctx d else ctx) s
