-- ===== src/Adapters/Exchange.antt =====
-- clients.SigNoz, the interface that sends one request, and gjson, which reads the body of the
-- answer. Both are parameters.
use signoz_operator.Prelude.{
  ℕ, String, Bool, List, ◌∷◌, Option, none, some, ℤ, RawMessage, Formatting,
}
use signoz_operator.Errors.{Error, Result, ok, err, new_from_http_response}

-- A body that is nil is the empty text.
pub record Request : Type 0 where
  pub method : String
  pub path : String
  pub body : RawMessage

pub record Response : Type 0 where
  pub status : ℕ
  pub body : RawMessage

pub record Exchanged : Type 0 where
  pub request : Request
  pub answer : Result Response

-- gjson.Result and its methods, `J` being the values.
pub record Gjson (J : Type 0) : Type 0 where
  pub get_bytes : RawMessage → String → J
  pub get : J → String → J
  pub exists : J → Bool
  pub is_array : J → Bool
  pub array : J → List J
  pub text : J → String
  pub int : J → ℤ
  pub raw : J → String

-- Exchange, whose answer may depend on the exchanges before, newest first, and the JSON library.
pub record SigNoz (J : Type 0) : Type 0 where
  pub exchange : List Exchanged → Request → Result Response
  pub gjson : Gjson J
  pub formatting : Formatting

-- What an adapter's method answers and the exchanges that it has made.
abbrev pub Talk : Type 0 → Type 0
Talk A = List Exchanged → A × List Exchanged

module _ {J : Type 0} (c : SigNoz J) where
  unfoldable pub of_status : RawMessage → Option Error → Result RawMessage
  of_status body none = ok body
  of_status body (some e) = err e

  -- The body of an answer whose status is a success.
  unfoldable pub accepted : Result Response → Result RawMessage
  unfolding of_status
  accepted (err e) = err e
  accepted (ok r) = of_status r.body (new_from_http_response c.formatting r.status r.body)

  unfoldable pub exchange : Request → Talk (Result RawMessage)
  exchange request h =
      let answer = c.exchange h request in
      (accepted answer, record { request = request; answer = answer } ∷ h)
