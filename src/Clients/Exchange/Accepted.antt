-- ===== src/Clients/Exchange/Accepted.antt =====
-- What an adapter gets through the client.
use signoz_operator.Prelude.{
  ℕ, [], ◌≡◌, ◌⊎◌, arith, true, none, inl, inr, RawMessage, Formatting, List, Option-cases,
}
use signoz_operator.Errors.{Result, ok, err, new_from_http_response}
use signoz_operator.Errors.Http.{new_from_http_response-none}
use signoz_operator.Clients.{Client}
use signoz_operator.Adapters.Exchange
use signoz_operator.Adapters.Exchange.{Request, Response, Exchanged, Gjson, accepted, of_status}
use signoz_operator.Clients.Exchange.{Http, Sent, HttpResponse, Bytes, signoz}
use signoz_operator.Clients.Exchange.Promise.{exchange-IsPromised}
use signoz_operator.Clients.Exchange.Contract.{
  Decodes, IsBody, IsSentFor, IsPromised, MakesJson, is_success,
}

module _ {J : Type 0} (http : Http) (IsJson : RawMessage → Type 0) (json : MakesJson http IsJson)
    (gjson : Gjson J) (formatting : Formatting) (c : Client) where
  success-accepted :
      (status : ℕ) (body : RawMessage)
      → new_from_http_response formatting status body ≡ none
      → is_success status ≡ true
  success-accepted status body h =
      let (low, high) = (new_from_http_response-none formatting status body).0 h in
      ground (arith, low, high)

  -- The body by what the server sent to this request under a success status: nil for no bytes, or
  -- their JSON value.
  abbrev pub IsServed : List Exchanged → Request → RawMessage → Type 0
  IsServed h request body =
      (sent : Sent) × (resp : HttpResponse) × IsSentFor http IsJson c h request sent
      × (http.send c.tls h sent ≡ ok resp)
      × (is_success resp.status ≡ true)
      × (resp.stream.failure ≡ none)
      × (((resp.stream.content ≡ []) × (body ≡ ""))
          ⊎ (IsJson body × Decodes http resp.stream.content body))

  served_body :
      (status : ℕ) (content : Bytes) (got : RawMessage)
      → is_success status ≡ true
      → IsBody http IsJson status content got
      → ((content ≡ []) × (got ≡ "")) ⊎ (IsJson got × Decodes http content got)
  served_body status content got success (inl empty) = inl empty
  served_body status content got success (inr (inl decoded)) = inr decoded
  served_body status content got success (inr (inr (is_json, failed, no_json, quoted))) =
      cc (success, failed)

  accepted-IsServed :
      (h : List Exchanged) (request : Request) (answer : Result Response) (body : RawMessage)
      → IsPromised http IsJson c h request answer
      → accepted (signoz http gjson formatting c) answer ≡ ok body
      → IsServed h request body
  unfolding accepted of_status
  accepted-IsServed h request (err e) body promised p = cc p
  accepted-IsServed h request (ok r) body
        (sent, resp, for_request, answered, (status, size, whole, is_body)) p =
      elim (Option-cases (new_from_http_response formatting r.status r.body)) [
        | inl success ↦
            let same : r.body ≡ body = cc (rw success at p) in
            let fine : is_success resp.status ≡ true =
              rw status at (success-accepted r.status r.body success) in
            (
              sent,
              resp,
              for_request,
              answered,
              fine,
              whole,
              rw same at (served_body resp.status resp.stream.content r.body fine is_body),
            )
        | inr (e, failed) ↦ cc (rw failed at p)
      ]

  -- Where the decoder makes JSON, what an adapter accepts of an exchange is what the server sent to
  -- its request, with a success status and in order to its end: nil for no bytes, or the JSON value
  -- of the bytes. It is never what the client wraps a body into that is no JSON.
  pub exchange-IsServed :
      (request : Request) (h : List Exchanged) (body : RawMessage)
      → (Exchange.exchange (signoz http gjson formatting c) request h).0 ≡ ok body
      → IsServed h request body
  unfolding Exchange.exchange
  exchange-IsServed request h body p =
      accepted-IsServed h request _ body (exchange-IsPromised http IsJson json c h request) p
