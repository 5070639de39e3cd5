-- ===== src/Reconciler/Settled/Existing.antt =====
-- An existing object, an adapter's error and a refused patch.
use signoz_operator.Prelude.{
  ℕ, ℤ, String, ◌≡◌, refl, arith, true, false, Option, none, some, List, ◌∷◌, if◌then◌else◌, ltb,
  length, ap, sym, Bool, RawMessage,
}
use signoz_operator.Errors.{Error, Result, ok, err, is_not_found}
use signoz_operator.Kube.Laws.{IsConditionList}
use signoz_operator.Core.{SigNozResource}
use signoz_operator.Clients.{Client}
use signoz_operator.Resources.Object.{Object, CompareResult}
use signoz_operator.Resources.Reason.{
  Reason, ReconcilerOutcome, outcome_synced, outcome_pending, outcome_recoverable, outcome_terminal,
}
use signoz_operator.Resources.Condition.{
  is_recoverable, outcome_on_err, get_outcome_and_set_conditions_on_err, set_conditions_on_outcome,
}
use signoz_operator.Resources.Condition.Report.{conditions_on_outcome-Reports}
use signoz_operator.Reconciler.Pass.{
  Context, Return, patched, Event, CommonReconciler, Pass, done, requeue,
}
use signoz_operator.Reconciler.Calls.{
  interval, retry_interval, report, error_of, answered, client_patch, add_create_attempt_annotation,
  remove_create_attempt_annotation, remove_attempt,
}
use signoz_operator.Reconciler.Existing
use signoz_operator.Reconciler.Settled.{schedule, refused, Answers, Ends, settles, Ending}

module _ {T : Type 0} (rec : CommonReconciler T) (ctx : Context) where
  answer-Answers :
      (before after : Object T) (calls : List (Event T)) (answer : Result (Object T))
      → Answers
          (error_of answer)
          (record { obj = answered after answer; calls = patched ctx before after answer ∷ calls })
  answer-Answers before after calls (ok obj) = tt
  answer-Answers before after calls (err e) = refused ctx before after calls

  pub add_create_attempt_annotation-Answers :
      (s : Pass T)
      → Answers
          (add_create_attempt_annotation rec ctx s).0
          (add_create_attempt_annotation rec ctx s).1
  unfolding add_create_attempt_annotation client_patch
  add_create_attempt_annotation-Answers s = answer-Answers _ _ s.calls _

  remove_attempt-Answers :
      (attempt : Option String) (s : Pass T)
      → Answers (remove_attempt rec ctx attempt s).0 (remove_attempt rec ctx attempt s).1
  unfolding remove_attempt client_patch
  remove_attempt-Answers none s = tt
  remove_attempt-Answers (some a) s = answer-Answers _ _ s.calls _

  pub remove_create_attempt_annotation-Answers :
      (s : Pass T)
      → Answers
          (remove_create_attempt_annotation rec ctx s).0
          (remove_create_attempt_annotation rec ctx s).1
  unfolding remove_create_attempt_annotation
  remove_create_attempt_annotation-Answers s = remove_attempt-Answers _ s

module _ {T : Type 0} (rec : CommonReconciler T) (laws : IsConditionList rec.kube) where
  schedule_on_err :
      (obj : Object T) (e : Error)
      → (if is_recoverable (outcome_on_err e).0 then requeue (retry_interval rec obj) else done)
        ≡ requeue (schedule rec obj (outcome_on_err e).0)
  unfolding outcome_on_err
  schedule_on_err obj e = ground arith

  pub Ends-if :
      (b : Bool) (p q : Return × Pass T)
      → Ends rec p.0 p.1
      → Ends rec q.0 q.1
      → Ends rec (if b then p else q).0 (if b then p else q).1
  Ends-if true p q hp hq = hp
  Ends-if false p q hp hq = hq

  pub on_adapter_error-Ends : (e : Error) → Ending rec (Existing.on_adapter_error rec e)
  unfolding Existing.on_adapter_error get_outcome_and_set_conditions_on_err
      set_conditions_on_outcome interval retry_interval
  on_adapter_error-Ends e s =
      settles (outcome_on_err e).0 (conditions_on_outcome-Reports rec.kube laws _ _ _ _ _ _)
        (schedule_on_err s.obj e)

  pub settle-Ends :
      (generation : ℕ) (hash : String) (reason : Reason) (message : String)
      → Ending rec (Existing.settle rec generation hash reason message)
  unfolding Existing.settle report set_conditions_on_outcome
  settle-Ends generation hash reason message s =
      settles outcome_synced (conditions_on_outcome-Reports rec.kube laws _ _ _ _ _ _) refl

  pub concluded-Ends :
      (generation : ℕ) (outcome : ReconcilerOutcome) (reason : Reason) (message : String)
      (s : Pass T)
      → schedule rec s.obj outcome ≡ ℤ.pos 0
      → Ends rec done (report rec generation outcome reason message s).1
  unfolding report set_conditions_on_outcome interval retry_interval
  concluded-Ends generation outcome_synced reason message s h =
      settles outcome_synced (conditions_on_outcome-Reports rec.kube laws _ _ _ _ _ _)
        (ap requeue (sym h))
  concluded-Ends generation outcome reason message s h =
      settles outcome (conditions_on_outcome-Reports rec.kube laws _ _ _ _ _ _) (ap requeue (sym h))

  pub retried-Ends :
      (generation : ℕ) (reason : Reason) (message : String) (s : Pass T)
      → let s' = (report rec generation outcome_recoverable reason message s).1 in
        Ends rec (requeue (retry_interval rec s'.obj)) s'
  unfolding report set_conditions_on_outcome
  retried-Ends generation reason message s =
      settles outcome_recoverable (conditions_on_outcome-Reports rec.kube laws _ _ _ _ _ _) refl

  forget-Ends : (generation : ℕ) → Ending rec (Existing.forget rec generation)
  unfolding Existing.forget report set_conditions_on_outcome
  forget-Ends generation s =
      settles outcome_pending (conditions_on_outcome-Reports rec.kube laws _ _ _ _ _ _) refl

  module _ (ctx : Context) (c : Client) where
    after_update-Ends :
        (generation : ℕ) (hash : String) (failure : Option Error)
        → Ending rec (Existing.after_update rec ctx c generation hash failure)
    unfolding Existing.after_update
    after_update-Ends generation hash (some e) = on_adapter_error-Ends e
    after_update-Ends generation hash none = settle-Ends generation hash _ _

    after_compare-Ends :
        (generation : ℕ) (r : Option SigNozResource) (hash : String) (x : Result CompareResult)
        → Ending rec (Existing.after_compare rec ctx c generation r hash x)
    unfolding Existing.after_compare Existing.update_remote
    after_compare-Ends generation r hash (err e) s =
        concluded-Ends generation outcome_terminal _ _ s refl
    after_compare-Ends generation r hash (ok x) s =
        Ends-if (ltb 0 (length x.immutable_fields)) _ _
          (concluded-Ends generation outcome_terminal _ _ s refl)
          (Ends-if (Existing.is_changed s.obj.status.observed_hash x hash) _ _
            (after_update-Ends generation hash _ _) (settle-Ends generation hash _ _ s))

    after_read-Ends :
        (generation : ℕ) (r : Option SigNozResource) (hash : String) (x : Result RawMessage)
        → Ending rec (Existing.after_read rec ctx c generation r hash x)
    unfolding Existing.after_read
    after_read-Ends generation r hash (ok remote) s = after_compare-Ends generation r hash _ s
    after_read-Ends generation r hash (err e) s =
        Ends-if (is_not_found e) _ _ (forget-Ends generation s) (on_adapter_error-Ends e s)

    pub on_existing_object-Ends :
        (hash : String) → Ending rec (Existing.on_existing_object rec ctx c hash)
    unfolding Existing.on_existing_object
    on_existing_object-Ends hash s = after_read-Ends _ _ hash _ _
