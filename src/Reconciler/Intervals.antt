-- ===== src/Reconciler/Intervals.antt =====
-- The intervals of a pass: no pass that settles leaves its object unwatched by mistake.
use signoz_operator.Prelude.{◌≡◌, ◌≢◌, arith, true, is_positive, refl}
use signoz_operator.Resources.Object.{Object}
use signoz_operator.Resources.Reason.{
  ReconcilerOutcome, outcome_terminal, outcome_suspended, outcome_synced, outcome_pending,
  outcome_recoverable,
}
use signoz_operator.Reconciler.Pass.{CommonReconciler}
use signoz_operator.Reconciler.Calls.{interval, retry_interval}
use signoz_operator.Reconciler.Settled.{schedule}

module _ {T : Type 0} (rec : CommonReconciler T) (obj : Object T) where
  retry_interval_positive :
      is_positive rec.default_interval ≡ true → is_positive (retry_interval rec obj) ≡ true
  unfolding retry_interval
  retry_interval_positive h = ground arith

  interval_positive :
      is_positive rec.default_interval ≡ true → is_positive (interval rec obj) ≡ true
  unfolding interval
  interval_positive h = ground arith

  -- With a positive default interval and delay after a lost object, every outcome but Terminal and
  -- Suspended brings the object back after a positive time, whatever durations its spec holds.
  pub schedule_positive :
      (outcome : ReconcilerOutcome)
      → is_positive rec.default_interval ≡ true
      → is_positive rec.requeue_after_on_not_found ≡ true
      → outcome ≢ outcome_terminal
      → outcome ≢ outcome_suspended
      → is_positive (schedule rec obj outcome) ≡ true
  schedule_positive outcome_synced i n t u = interval_positive i
  schedule_positive outcome_pending i n t u = n
  schedule_positive outcome_recoverable i n t u = retry_interval_positive i
  schedule_positive outcome_terminal i n t u = absurd (t refl)
  schedule_positive outcome_suspended i n t u = absurd (u refl)
