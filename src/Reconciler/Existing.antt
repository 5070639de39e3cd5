-- ===== src/Reconciler/Existing.antt =====
-- onAdapterError and onExistingObject of commonReconciler.
use signoz_operator.Prelude.{
  ℕ, String, Bool, not, ◌&&◌, Option, none, some, [], ◌∷◌, ltb, length, if◌then◌else◌, str_eq,
  concat, join, RawMessage,
}
use signoz_operator.Errors.{Error, Result, ok, err, error_text, is_not_found}
use signoz_operator.Core.{SigNozResource}
use signoz_operator.Clients.{Client}
use signoz_operator.Resources.Object.{CompareResult}
use signoz_operator.Resources.Reason.{
  Reason, synced, pending, updated, immutable_field_changed, compare_failed, outcome_synced,
  outcome_pending, outcome_terminal,
}
use signoz_operator.Resources.Condition.{is_recoverable, get_outcome_and_set_conditions_on_err}
use signoz_operator.Reconciler.Pass.{
  Context, Return, CommonReconciler, Step, pure, gets, modify, ◌>>=◌, ◌>>◌, done, requeue,
}
use signoz_operator.Reconciler.Calls.{
  with_status, with_signoz_resource, with_observed_hash, adapter_read, adapter_update, interval,
  retry_interval, report,
}

-- Has the live state at the server, or the hash of the desired one, changed?
unfoldable pub is_changed : String → CompareResult → String → Bool
is_changed observed_hash compared hash =
    let by_compare = ltb 0 (length compared.updatable_fields) in
    let by_hash = not (str_eq observed_hash "") && not (str_eq observed_hash hash) in
    not (not by_compare && not by_hash)

module _ {T : Type 0} (rec : CommonReconciler T) where
  unfoldable pub on_adapter_error : Error → Step T Return
  on_adapter_error e s =
      let (outcome, status) =
        get_outcome_and_set_conditions_on_err rec.kube (rec.clock s.calls) s.obj.meta.generation e
          s.obj.status in
      (
        if is_recoverable outcome then requeue (retry_interval rec s.obj) else done,
        record s { obj = with_status status s.obj },
      )

  -- The object is as desired: record the hash, report it and come back after the interval.
  unfoldable pub settle : ℕ → String → Reason → String → Step T Return
  settle generation hash reason message = do
    modify (with_observed_hash hash)
    report rec generation outcome_synced reason message
    gets (λ s. requeue (interval rec s.obj))

  -- The remote object is gone: drop the stale metadata and come back soon.
  unfoldable pub forget : ℕ → Step T Return
  forget generation = do
    modify (with_signoz_resource none)
    modify (with_observed_hash "")
    report rec generation outcome_pending pending
        "The SigNoz object was not found; it will be recreated"
    pure (requeue rec.requeue_after_on_not_found)

  unfoldable pub immutable_message : CompareResult → String
  immutable_message compared = concat (
      "Immutable fields changed: "
      ∷ join compared.immutable_fields ", "
      ∷ ". For this object, fields: "
      ∷ join rec.kind.immutable_fields ","
      ∷ " are immutable. Revert the change, or delete and recreate the resource"
      ∷ [])

  module _ (ctx : Context) (c : Client) (generation : ℕ) where
    unfoldable pub after_update : String → Option Error → Step T Return
    after_update hash (some e) = on_adapter_error e
    after_update hash none = settle generation hash updated "Updated in SigNoz"

    unfoldable pub update_remote : Option SigNozResource → String → Step T Return
    update_remote resource hash = do
      failure ← adapter_update rec ctx c resource
      after_update hash failure

    unfoldable pub after_compare :
        Option SigNozResource → String → Result CompareResult → Step T Return
    after_compare resource hash (err e) = do
      report rec generation outcome_terminal compare_failed
          (concat ("This is likely a bug in the operator: " ∷ error_text e ∷ []))
      pure done
    after_compare resource hash (ok compared) = λ s.
        if ltb 0 (length compared.immutable_fields)
        then (do
          report rec generation outcome_terminal immutable_field_changed
              (immutable_message compared)
          pure done)
            s
        else if is_changed s.obj.status.observed_hash compared hash
        then update_remote resource hash s
        else settle generation hash synced "In sync with SigNoz" s

    unfoldable pub after_read : Option SigNozResource → String → Result RawMessage → Step T Return
    after_read resource hash (err e) =
        λ s. if is_not_found e then forget generation s else on_adapter_error e s
    after_read resource hash (ok remote) =
        λ s. after_compare resource hash (rec.kind.compare s.obj.template remote) s

  unfoldable pub on_existing_object : Context → Client → String → Step T Return
  on_existing_object ctx c hash s =
      let resource = s.obj.status.signoz_resource in
      (do
        remote ← adapter_read rec ctx c resource
        after_read ctx c s.obj.meta.generation resource hash remote)
        s
