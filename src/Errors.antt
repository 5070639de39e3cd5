-- ===== src/Errors.antt =====
-- internal/errors: the error type of the code base, its classes and codes, and the reading of an
-- HTTP status. Go's `error` is `Error`, and a result that may be nil is an `Option`. The wrappers
-- of the standard library's Is and Join are not used by any modelled code and are left out.
pub mod Http
use signoz_operator.Prelude.{
  ℕ, String, Bool, true, false, ◌&&◌, Option, none, some, [], ◌∷◌, ltb, leb, ◌==◌, if◌then◌else◌,
  str_eq, concat, RawMessage, Formatting,
}

-- The class of an error, on which callers branch.
pub data Reason : Type 0 where
  unknown invalid_input unauthorized forbidden not_found already_exists : Reason
  too_many_requests internal unreachable : Reason

-- A code is its text; `code_unknown` is the one of an error minted without a code.
abbrev pub Code : Type 0
Code = String

abbrev pub code_unknown : Code
code_unknown = "Unknown"

-- `foreign` is an error of other code by its text, `wrapped` is fmt.Errorf with %w (the whole text
-- and the cause), and the two others are a `*Base` without and with a cause.
pub data Error : Type 0 where
  foreign : String → Error
  wrapped : String → Error → Error
  based : Reason → Code → String → Error
  based_on : Reason → Code → String → Error → Error

-- What a Go function returns that returns a value and an error.
pub data Result {ℓ} (A : Type ℓ) : Type ℓ where
  ok : A → Result A
  err : Error → Result A

-- The struct behind a `*Base`.
pub record Base : Type 0 where
  pub reason : Reason
  pub code : Code
  pub message : String
  pub cause : Option Error

-- Error() of every kind of error.
unfoldable pub error_text : Error → String
error_text (foreign m) = m
error_text (wrapped m e) = m
error_text (based r c m) = m
error_text (based_on r c m e) = concat (m ∷ ": " ∷ error_text e ∷ [])

unfoldable pub new : Reason → String → Error
new r m = based r code_unknown m

unfoldable pub wrap : Error → Reason → String → Error
wrap cause r m = based_on r code_unknown m cause

-- WithCode copies the struct; it is only called on a `*Base`.
unfoldable pub with_code : Error → Code → Error
with_code (based r c m) code = based r code m
with_code (based_on r c m e) code = based_on r code m e
with_code e code = e

-- errors.As on a `*Base`: the first one of the chain.
unfoldable pub as_base : Error → Option Base
as_base (foreign m) = none
as_base (wrapped m e) = as_base e
as_base (based r c m) = some (record { reason = r; code = c; message = m; cause = none })
as_base (based_on r c m e) = some (record { reason = r; code = c; message = m; cause = some e })

reason_or_unknown : Option Base → Reason
reason_or_unknown none = unknown
reason_or_unknown (some b) = b.reason

unfoldable pub reason_for_error : Error → Reason
unfolding as_base reason_or_unknown
reason_for_error e = reason_or_unknown (as_base e)

unfoldable pub retryable : Reason → Bool
retryable invalid_input = false
retryable unauthorized = false
retryable forbidden = false
retryable already_exists = false
retryable _ = true

is_reason_not_found : Reason → Bool
is_reason_not_found not_found = true
is_reason_not_found _ = false

is_reason_already_exists : Reason → Bool
is_reason_already_exists already_exists = true
is_reason_already_exists _ = false

is_reason_unauthorized : Reason → Bool
is_reason_unauthorized unauthorized = true
is_reason_unauthorized _ = false

is_reason_forbidden : Reason → Bool
is_reason_forbidden forbidden = true
is_reason_forbidden _ = false

is_reason_unreachable : Reason → Bool
is_reason_unreachable unreachable = true
is_reason_unreachable _ = false

unfoldable pub is_not_found : Error → Bool
unfolding reason_for_error is_reason_not_found
is_not_found e = is_reason_not_found (reason_for_error e)

unfoldable pub is_already_exists : Error → Bool
unfolding reason_for_error is_reason_already_exists
is_already_exists e = is_reason_already_exists (reason_for_error e)

unfoldable pub is_unauthorized : Error → Bool
unfolding reason_for_error is_reason_unauthorized
is_unauthorized e = is_reason_unauthorized (reason_for_error e)

unfoldable pub is_forbidden : Error → Bool
unfolding reason_for_error is_reason_forbidden
is_forbidden e = is_reason_forbidden (reason_for_error e)

unfoldable pub is_unreachable : Error → Bool
unfolding reason_for_error is_reason_unreachable
is_unreachable e = is_reason_unreachable (reason_for_error e)

-- IsRetryable on an error that is not nil.
unfoldable pub is_retryable : Error → Bool
unfolding reason_for_error retryable
is_retryable e = retryable (reason_for_error e)

module _ (fmt : Formatting) where
  compact_detail : Option String → String
  compact_detail none = ""
  compact_detail (some compact) = concat (": " ∷ compact ∷ [])

  -- What the message quotes of the body.
  detail_of : RawMessage → String
  unfolding compact_detail
  detail_of body = if str_eq body "" then "" else compact_detail (fmt.compact body)

  describe : String → ℕ → RawMessage → String
  unfolding detail_of
  describe what status body =
      concat (what ∷ " (HTTP " ∷ fmt.decimal status ∷ ")" ∷ detail_of body ∷ [])

  -- The error of a status that is no success.
  failure_of : ℕ → RawMessage → Error
  unfolding describe new
  failure_of status body =
      if status == 400
      then new invalid_input (describe "the server rejected the request" status body)
      else if status == 401
      then new unauthorized (describe "the server rejected the credential" status body)
      else if status == 403
      then new forbidden (describe "the server rejected the credential" status body)
      else if status == 404
      then new not_found (describe "the server could not find the object" status body)
      else if status == 409
      then new already_exists (describe "the server reported a conflict" status body)
      else if status == 429
      then new too_many_requests (describe "the server asked to back off" status body)
      else if leb 500 status
      then new internal (describe "the server returned an internal error" status body)
      else new unknown (describe "the server returned an unexpected status" status body)

  -- None is a success, 2xx.
  unfoldable pub new_from_http_response : ℕ → RawMessage → Option Error
  unfolding failure_of
  new_from_http_response status body =
      if leb 200 status && ltb status 300 then none else some (failure_of status body)
