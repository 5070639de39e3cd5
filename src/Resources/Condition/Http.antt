-- ===== src/Resources/Condition/Http.antt =====
-- The outcome that an HTTP status of SigNoz leads to.
use signoz_operator.Prelude.{ℕ, ◌≡◌, arith, ◌||◌, some, ◌==◌, if◌then◌else◌, Formatting, RawMessage}
use signoz_operator.Errors.{
  Error, new_from_http_response, is_unreachable, is_retryable, is_unauthorized, is_forbidden,
}
use signoz_operator.Resources.Reason.{
  outcome_recoverable, outcome_terminal, rejected, unauthorized, backend_error,
}
use signoz_operator.Resources.Condition.{outcome_on_err}

-- The outcome and reason that GetOutcomeAndSetConditionsOnErr gives to the error of an answer of
-- SigNoz that is no success: Terminal, as Rejected, exactly on the statuses 400 and 409; Recoverable
-- otherwise, as Unauthorized on 401 and 403 and as BackendError on all others. Where a pass does not
-- ask it, as for the 409 of a create and the 404 of a read, this says nothing.
pub outcome_on_err-new_from_http_response :
    (fmt : Formatting) (status : ℕ) (body : RawMessage) {e : Error}
    → new_from_http_response fmt status body ≡ some e
    → outcome_on_err e ≡ (
        if status == 400 || status == 409
        then (outcome_terminal, rejected)
        else if status == 401 || status == 403
        then (outcome_recoverable, unauthorized)
        else (outcome_recoverable, backend_error))
unfolding new_from_http_response outcome_on_err is_unreachable is_retryable is_unauthorized
    is_forbidden
outcome_on_err-new_from_http_response fmt status body h = ground arith
