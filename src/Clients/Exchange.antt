-- ===== src/Clients/Exchange.antt =====
-- The method Exchange of internal/clients/signoz.go. net/url, net/http and encoding/json are
-- parameters. A body that is nil is the empty text.
pub mod Snippet
pub mod Contract
pub mod Promise
pub mod Headers
pub mod Accepted
use signoz_operator.Prelude.{
  ℕ, zero, suc, ◌+◌, String, Bool, true, false, not, ◌&&◌, Option, none, some, List, [], ◌∷◌, Dict,
  put, length, ltb, leb, ◌==◌, ◌||◌, str_eq, concat, if◌then◌else◌, RawMessage, Formatting,
}
use signoz_operator.Errors.{Error, Result, ok, err, new, wrap, unreachable, invalid_input}
use signoz_operator.ProviderConfig.Resolved.{
  Url, TlsConfig, ResolvedProviderConfigSpec, set_auth_header,
}
use signoz_operator.Clients.{Client}
use signoz_operator.Adapters.Exchange.{Request, Response, Exchanged, Gjson, SigNoz}

abbrev pub Bytes : Type 0
Bytes = List ℕ

abbrev pub max_response_body : ℕ
max_response_body = 67108864

-- The *url.URL of a path.
pub record Reference : Type 0 where
  pub escaped_path : String
  pub raw_query : String

-- A request as it is sent.
pub record Sent : Type 0 where
  pub method : String
  pub url : Url
  pub headers : Dict String
  pub body : RawMessage

-- A body that arrives: its bytes, and the error after them if it does not end in order.
pub record Stream : Type 0 where
  pub content : Bytes
  pub failure : Option Error

pub record HttpResponse : Type 0 where
  pub status : ℕ
  pub stream : Stream

-- The libraries: url.Parse of a path, JoinPath, the assignment of RawQuery,
-- http.NewRequestWithContext with the URL that it parses from a text, the canonical form of a
-- header's name, http.Client.Do, whose answer may depend on the exchanges before, the decoder's
-- Decode, with what follows the value, and its More, json.Marshal of the map with the one key
-- "response", and the bytes as a text.
pub record Http : Type 0 where
  pub parse_path : String → Result Reference
  pub join_path : Url → String → Url
  pub with_query : Url → String → Url
  pub new_request : String → String → Result Url
  pub canonical : String → String
  pub send : Option TlsConfig → List Exchanged → Sent → Result HttpResponse
  pub decode : Bytes → Option (RawMessage × Bytes)
  pub more : Bytes → Bool
  pub marshal_response : Bytes → RawMessage
  pub text : Bytes → String
  pub decimal : ℕ → String
  pub user_agent : String

-- The bytes of a slice up to an index.
unfoldable pub up_to : ℕ → Bytes → Bytes
up_to zero bs = []
up_to (suc n) [] = []
up_to (suc n) (b ∷ bs) = b ∷ up_to n bs

abbrev pub is_break : ℕ → Bool
is_break b = b == 10 || (b == 13 || b == 9)

-- The loop of snippet, in which a space stands for a break.
unfoldable pub compacted : Bytes → Bytes
compacted [] = []
compacted (b ∷ bs) = (if is_break b then 32 else b) ∷ compacted bs

unfoldable pub snippet : Bytes → Bytes
snippet body = compacted (up_to 200 body)

-- What comes through a reader with that limit, and the error that it meets before the limit.
unfoldable pub limited : ℕ → Stream → Bytes
limited limit stream = up_to limit stream.content

unfoldable pub read_failure : ℕ → Stream → Option Error
read_failure limit stream = if ltb (length stream.content) limit then stream.failure else none

module _ (http : Http) where
  unfoldable pub valid_value : Option (RawMessage × Bytes) → Option RawMessage
  valid_value none = none
  valid_value (some (data_, rest)) = if http.more rest then none else some data_

  -- The value of a body that is JSON.
  unfoldable pub valid_data : Bytes → Option RawMessage
  unfolding valid_value
  valid_data seen = valid_value (http.decode seen)

  unfoldable pub not_json : ℕ → Bytes → Error
  not_json status seen = new unreachable (
      concat (
        "the server returned a success status (HTTP "
        ∷ http.decimal status
        ∷ ") with a non-JSON body: "
        ∷ http.text (snippet seen)
        ∷ []))

  unfoldable pub body_of : ℕ → Bytes → Option RawMessage → Result Response
  body_of status [] valid = ok (record { status = status; body = "" })
  body_of status (b ∷ bs) (some data_) = ok (record { status = status; body = data_ })
  body_of status (b ∷ bs) none =
      if leb 200 status && ltb status 300
      then err (not_json status (b ∷ bs))
      else ok (record { status = status; body = http.marshal_response (snippet (b ∷ bs)) })

  unfoldable pub after_copy : ℕ → Bytes → Option Error → Result Response
  after_copy status seen (some e) = err (wrap e unreachable "could not read the response body")
  after_copy status seen none =
      if ltb max_response_body (length seen)
      then err (
          new unreachable (
            concat (
              "the server returned a response body over the "
              ∷ http.decimal max_response_body
              ∷ " byte limit"
              ∷ [])))
      else body_of status seen (valid_data seen)

  unfoldable pub after_send : Result HttpResponse → Result Response
  after_send (err e) = err (wrap e unreachable "could not reach SigNoz")
  after_send (ok resp) =
      after_copy resp.status (limited (max_response_body + 1) resp.stream)
        (read_failure (max_response_body + 1) resp.stream)

  unfoldable pub headers_of : ResolvedProviderConfigSpec → RawMessage → Dict String
  headers_of resolved body =
      let agent =
        put (set_auth_header http.canonical resolved []) (http.canonical "User-Agent")
          http.user_agent in
      if str_eq body "" then agent else put agent (http.canonical "Content-Type") "application/json"

  module _ (c : Client) (h : List Exchanged) (request : Request) where
    unfoldable pub after_request : Result Url → Result Response
    after_request (err e) = err (wrap e invalid_input "could not build the request")
    after_request (ok url) = after_send (
        http.send c.tls h (record {
          method = request.method;
          url = url;
          headers = headers_of c.resolved request.body;
          body = request.body;
        }))

    unfoldable pub after_parse : Result Reference → Result Response
    after_parse (err e) = err (wrap e invalid_input "could not build the request URL")
    after_parse (ok ref) =
        let target =
          http.with_query (http.join_path c.resolved.endpoint ref.escaped_path) ref.raw_query in
        after_request (http.new_request request.method target.text)

    unfoldable pub exchange : Result Response
    exchange = after_parse (http.parse_path request.path)

  -- The client as the adapters use it.
  abbrev pub signoz : {J : Type 0} → Gjson J → Formatting → Client → SigNoz J
  signoz gjson formatting c = record {
    exchange = λ h request. exchange c h request;
    gjson = gjson;
    formatting = formatting;
  }
