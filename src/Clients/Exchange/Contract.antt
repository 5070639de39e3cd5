-- ===== src/Clients/Exchange/Contract.antt =====
-- What the interface SigNoz promises of its Exchange, by what the server sent.
use signoz_operator.Prelude.{
  ℕ, String, ◌≤◌, ◌≡◌, ◌⊎◌, Bool, false, ◌&&◌, Option, none, some, List, [], length, ltb, leb,
  RawMessage,
}
use signoz_operator.Errors.{Error, Result, ok, err, unreachable, invalid_input, reason_for_error}
use signoz_operator.Clients.{Client}
use signoz_operator.Adapters.Exchange.{Request, Response, Exchanged}
use signoz_operator.Clients.Exchange.{
  Http, Bytes, HttpResponse, Reference, Sent, snippet, max_response_body,
}

abbrev pub is_success : ℕ → Bool
is_success status = leb 200 status && ltb status 300

-- The bytes are one JSON value, with nothing but their end after it as More tells it.
abbrev pub Decodes : Http → Bytes → RawMessage → Type 0
Decodes http content data_ =
    (rest : Bytes) × (http.decode content ≡ some (data_, rest)) × (http.more rest ≡ false)

-- They are no such value.
abbrev pub DecodesNone : Http → Bytes → Type 0
DecodesNone http content = (data_ : RawMessage) → Decodes http content data_ → ⊥

module _ (http : Http) (IsJson : RawMessage → Type 0) where
  -- The libraries make JSON: what Decode hands out, and what Marshal returns.
  pub record MakesJson : Type 0 where
    pub decoded :
        (seen rest : Bytes) (data_ : RawMessage)
        → http.decode seen ≡ some (data_, rest)
        → IsJson data_
    pub marshalled : (bytes : Bytes) → IsJson (http.marshal_response bytes)

  -- A body by the bytes that the server sent: nil for none, their value if they are JSON, and else,
  -- under a status that is no success, the JSON text that quotes their start.
  abbrev pub IsBody : ℕ → Bytes → RawMessage → Type 0
  IsBody status content body =
      ((content ≡ []) × (body ≡ ""))
      ⊎ (IsJson body × Decodes http content body)
      ⊎ (IsJson body
          × (is_success status ≡ false)
          × DecodesNone http content
          × (body ≡ http.marshal_response (snippet content)))

  -- A response by what the server sent, which ended in order within the limit.
  abbrev pub Relays : HttpResponse → Response → Type 0
  Relays resp r =
      (r.status ≡ resp.status)
      × (length resp.stream.content ≤ max_response_body)
      × (resp.stream.failure ≡ none)
      × IsBody resp.status resp.stream.content r.body

  -- An error that says that SigNoz could not be reached or that the request could not be built.
  abbrev pub IsRefusal : Error → Type 0
  IsRefusal e = (reason_for_error e ≡ unreachable) ⊎ (reason_for_error e ≡ invalid_input)

  abbrev pub IsRelayed : Result HttpResponse → Result Response → Type 0
  IsRelayed answer (ok r) = (resp : HttpResponse) × (answer ≡ ok resp) × Relays resp r
  IsRelayed answer (err e) = IsRefusal e

  -- What the valid data of a body says of its bytes.
  abbrev pub IsValid : Bytes → Option RawMessage → Type 0
  IsValid content none = DecodesNone http content
  IsValid content (some data_) = IsJson data_ × Decodes http content data_

  abbrev pub IsBodyOf : ℕ → Bytes → Result Response → Type 0
  IsBodyOf status content (ok r) = (r.status ≡ status) × IsBody status content r.body
  IsBodyOf status content (err e) = IsRefusal e

  -- The endpoint with the path and the query of a reference.
  abbrev pub address : Client → Reference → String
  address c ref =
      let joined = http.join_path c.resolved.endpoint ref.escaped_path in
      (http.with_query joined ref.raw_query).text

  module _ (c : Client) (h : List Exchanged) (request : Request) where
    -- What is sent for the request: it has its method and its body, and goes to the endpoint with its
    -- path and query.
    abbrev pub IsSentFor : Sent → Type 0
    IsSentFor sent =
        (ref : Reference) × (http.parse_path request.path ≡ ok ref)
        × (http.new_request request.method (address c ref) ≡ ok sent.url)
        × (sent.method ≡ request.method)
        × (sent.body ≡ request.body)

    -- The response relays what the server sent to it; or there is an error of those two kinds.
    abbrev pub IsPromised : Result Response → Type 0
    IsPromised (ok r) =
        (sent : Sent) × (resp : HttpResponse) × IsSentFor sent
        × (http.send c.tls h sent ≡ ok resp)
        × Relays resp r
    IsPromised (err e) = IsRefusal e
