-- ===== src/Errors/Http.antt =====
-- How an HTTP status is classified: as a success, as worth a retry, and as an outcome.
use signoz_operator.Prelude.{
  ℕ, ◌≤◌, ◌<◌, ◌≡◌, ◌↔◌, arith, ◌||◌, not, none, some, ◌==◌, Formatting, RawMessage,
}
use signoz_operator.Errors.{
  Error, new_from_http_response, is_retryable, is_not_found, is_already_exists,
}

module _ (fmt : Formatting) (status : ℕ) (body : RawMessage) where
  -- No error exactly on a status of the class 2xx.
  pub new_from_http_response-none :
      (new_from_http_response fmt status body ≡ none) ↔ ((200 ≤ status) × (status < 300))
  unfolding new_from_http_response
  new_from_http_response-none = ground arith

  -- An error is worth a retry unless its status is 400, 401, 403 or 409; it is NotFound exactly on
  -- 404 and AlreadyExists exactly on 409, whatever the body.
  pub new_from_http_response-some :
      {e : Error}
      → new_from_http_response fmt status body ≡ some e
      → (is_retryable e ≡ not (status == 400 || status == 401 || status == 403 || status == 409))
        × (is_not_found e ≡ (status == 404))
        × (is_already_exists e ≡ (status == 409))
  unfolding new_from_http_response is_retryable is_not_found is_already_exists
  new_from_http_response-some h = ground arith
