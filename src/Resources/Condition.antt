-- ===== src/Resources/Condition.antt =====
-- internal/resources/condition.go: how one outcome is written on the conditions of a status, and
-- which outcome an adapter's error has. One instant stands for the clock reads of one call.
pub mod Report
pub mod Http
use signoz_operator.Prelude.{
  ℕ, String, Bool, true, false, ◌||◌, Option, none, some, List, if◌then◌else◌, not, ◌&&◌,
}
use signoz_operator.Errors.{
  Error, Base, as_base, error_text, is_unreachable, is_retryable, is_unauthorized, is_forbidden,
}
use signoz_operator.Kube.{
  Condition, ConditionStatus, condition_true, condition_false, condition_unknown, Kube,
}
use signoz_operator.Core.{CoreStatus}
use signoz_operator.Resources.Reason.{
  Reason, reason_string, backend_unreachable, backend_error, unauthorized, rejected,
  ReconcilerOutcome, outcome_synced, outcome_recoverable, outcome_terminal, outcome_suspended,
}

-- A condition type, and whether it stands with a status other than True too.
pub record ConditionType : Type 0 where
  pub s : String
  pub is_always_present : Bool

abbrev pub condition_ready : ConditionType
condition_ready = record { s = "Ready"; is_always_present = true }

abbrev pub condition_synced : ConditionType
condition_synced = record { s = "Synced"; is_always_present = true }

abbrev pub condition_terminal : ConditionType
condition_terminal = record { s = "Terminal"; is_always_present = false }

abbrev pub condition_recoverable : ConditionType
condition_recoverable = record { s = "Recoverable"; is_always_present = false }

abbrev pub condition_suspended : ConditionType
condition_suspended = record { s = "Suspended"; is_always_present = false }

abbrev pub is_condition_true : ConditionStatus → Bool
is_condition_true condition_true = true
is_condition_true _ = false

abbrev pub presence : Bool → ConditionStatus
presence on = if on then condition_true else condition_false

-- The two `switch` statements of SetConditionsOnOutcome.
abbrev pub synced_status : ReconcilerOutcome → ConditionStatus
synced_status outcome_synced = condition_true
synced_status outcome_terminal = condition_false
synced_status _ = condition_unknown

abbrev pub ready_status : ReconcilerOutcome → ConditionStatus
ready_status outcome_synced = condition_true
ready_status outcome_terminal = condition_false
ready_status outcome_suspended = condition_false
ready_status _ = condition_unknown

-- The comparisons `outcome == …`.
abbrev pub is_suspended : ReconcilerOutcome → Bool
is_suspended outcome_suspended = true
is_suspended _ = false

abbrev pub is_terminal : ReconcilerOutcome → Bool
is_terminal outcome_terminal = true
is_terminal _ = false

abbrev pub is_recoverable : ReconcilerOutcome → Bool
is_recoverable outcome_recoverable = true
is_recoverable _ = false

module _ (kube : Kube) (now : ℕ) where
  module _ (generation : ℕ) (reason : Reason) (message : String) where
    -- The condition that `apply` sets.
    abbrev pub condition_of : ConditionType → ConditionStatus → Condition
    condition_of c s = record {
      type = c.s;
      status = s;
      reason = reason_string reason;
      message = message;
      observed_generation = generation;
      last_transition_time = 0;
    }

    unfoldable pub apply : ConditionType → ConditionStatus → List Condition → List Condition
    apply c s conditions =
        if not c.is_always_present && not (is_condition_true s)
        then kube.remove_status_condition conditions c.s
        else kube.set_status_condition now conditions (condition_of c s)

    unfoldable pub conditions_on_outcome : ReconcilerOutcome → List Condition → List Condition
    conditions_on_outcome outcome cs₀ =
        let cs₁ = apply condition_synced (synced_status outcome) cs₀ in
        let cs₂ = apply condition_suspended (presence (is_suspended outcome)) cs₁ in
        let cs₃ = apply condition_terminal (presence (is_terminal outcome)) cs₂ in
        let cs₄ = apply condition_recoverable (presence (is_recoverable outcome)) cs₃ in
        apply condition_ready (ready_status outcome) cs₄

    unfoldable pub set_conditions_on_outcome : ReconcilerOutcome → CoreStatus → CoreStatus
    set_conditions_on_outcome outcome status = record status {
      observed_generation = generation;
      conditions = conditions_on_outcome outcome status.conditions;
    }

-- The branch that GetOutcomeAndSetConditionsOnErr takes on an error.
outcome_on_base : Error → Option Base → ReconcilerOutcome × Reason
outcome_on_base e none = (outcome_recoverable, backend_unreachable)
outcome_on_base e (some base) =
    if is_unreachable e
    then (outcome_recoverable, backend_unreachable)
    else if is_retryable e
    then (outcome_recoverable, backend_error)
    else if is_unauthorized e || is_forbidden e
    then (outcome_recoverable, unauthorized)
    else (outcome_terminal, rejected)

unfoldable pub outcome_on_err : Error → ReconcilerOutcome × Reason
unfolding outcome_on_base
outcome_on_err e = outcome_on_base e (as_base e)

-- GetOutcomeAndSetConditionsOnErr: the outcome, and the status with its conditions.
unfoldable pub get_outcome_and_set_conditions_on_err :
    Kube → ℕ → ℕ → Error → CoreStatus → ReconcilerOutcome × CoreStatus
get_outcome_and_set_conditions_on_err kube now generation e status =
    let (outcome, reason) = outcome_on_err e in
    (outcome, set_conditions_on_outcome kube now generation reason (error_text e) outcome status)
