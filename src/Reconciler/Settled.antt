-- ===== src/Reconciler/Settled.antt =====
-- How a pass ends: with the error of the API server, or with an outcome that the conditions report
-- and that says when the object comes back.
pub mod Existing
pub mod New
pub mod Outcome
use signoz_operator.Prelude.{
  ℕ, ℤ, String, ◌≡◌, refl, arith, true, false, Option, none, some, List, [], ◌∷◌, is_positive,
  if◌then◌else◌, Bool-cases, inl, inr, ltb, length, ap, sym, Bool, RawMessage,
}
use signoz_operator.Errors.{Error, Result, ok, err, is_not_found, is_already_exists, is_retryable}
use signoz_operator.Kube.Laws.{IsConditionList}
use signoz_operator.Core.{SigNozResource}
use signoz_operator.Clients.{Client}
use signoz_operator.Resources.Object.{Object, CompareResult}
use signoz_operator.Resources.Reason.{
  Reason, ReconcilerOutcome, outcome_synced, outcome_pending, outcome_recoverable, outcome_terminal,
  outcome_suspended,
}
use signoz_operator.Resources.Condition.{
  is_recoverable, outcome_on_err, get_outcome_and_set_conditions_on_err, set_conditions_on_outcome,
}
use signoz_operator.Resources.Condition.Report.{Reports, conditions_on_outcome-Reports}
use signoz_operator.Reconciler.Pass.{
  Context, Return, Event, patched, CommonReconciler, Pass, Step, done, requeue, failed,
}
use signoz_operator.Reconciler.Calls.{interval, retry_interval, report}

-- The last call was a patch that the API server refused with this error.
pub data LastRefused {T : Type 0} (e : Error) : List (Event T) → Type 0 where
  refused :
      (ctx : Context) (before after : Object T) (calls : List (Event T))
      → LastRefused e (patched ctx before after (err e) ∷ calls)

abbrev pub Answers : {T : Type 0} → Option Error → Pass T → Type 0
Answers none s = Unit {0}
Answers (some e) s = LastRefused e s.calls

module _ {T : Type 0} (rec : CommonReconciler T) where
  -- When an object comes back: after the interval if it is synced, after the retry interval on a
  -- failure that a retry may fix, soon if its remote object is gone, and never by itself otherwise.
  abbrev pub schedule : Object T → ReconcilerOutcome → ℤ
  schedule obj outcome_synced = interval rec obj
  schedule obj outcome_pending = rec.requeue_after_on_not_found
  schedule obj outcome_recoverable = retry_interval rec obj
  schedule obj outcome_terminal = ℤ.pos 0
  schedule obj outcome_suspended = ℤ.pos 0

  pub data Ends (r : Return) (s : Pass T) : Type 0 where
    fails : (e : Error) → LastRefused e s.calls → r ≡ failed e → Ends r s
    settles :
        (outcome : ReconcilerOutcome)
        → Reports rec.kube outcome s.obj.status.conditions
        → r ≡ requeue (schedule s.obj outcome)
        → Ends r s

  abbrev pub EndsAt : Step T Return → Pass T → Type 0
  EndsAt m s = Ends (m s).0 (m s).1

  -- The step ends so from every pass.
  abbrev pub Ending : Step T Return → Type 0
  Ending m = (s : Pass T) → EndsAt m s
