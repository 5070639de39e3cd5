-- ===== src/Samples/Http.antt =====
-- Libraries under which every body that starts with "{" is JSON, a SigNoz behind a gateway that answers
-- a page, and its client.
use signoz_operator.Prelude.{
  ◌≡◌, ◌⊎◌, inl, inr, Bool-cases, refl, false, Option, none, some, [], ◌∷◌, RawMessage,
  if◌then◌else◌, ◌==◌,
}
use signoz_operator.Errors.{ok}
use signoz_operator.Clients
use signoz_operator.Clients.{Client}
use signoz_operator.Adapters.Exchange.{Request}
use signoz_operator.Clients.Exchange.{Http, Bytes}
use signoz_operator.Clients.Exchange.Contract.{MakesJson}
use signoz_operator.Samples.Configs.{resolved}

abbrev decode : Bytes → Option (RawMessage × Bytes)
decode [] = none
decode (b ∷ rest) = if b == 123 then some ("{}", []) else none

abbrev pub http : Http
http = record {
  parse_path = λ path. ok (record { escaped_path = path; raw_query = "" });
  join_path = λ url path. url;
  with_query = λ url query. url;
  new_request = λ method text. ok (record { scheme = "https"; host = "signoz"; text = text });
  canonical = λ name. name;
  send = λ tls h sent.
      ok (record { status = 502; stream = record { content = 60 ∷ 10 ∷ 62 ∷ []; failure = none } });
  decode = decode;
  more = λ rest. false;
  marshal_response = λ bytes. "{\"response\": \"<p> </p>\"}";
  text = λ bytes. "< >";
  decimal = λ n. "n";
  user_agent = "signoz-operator/1";
}

-- The JSON texts of these libraries.
abbrev pub IsJson : RawMessage → Type 0
IsJson text = (text ≡ "{}") ⊎ (text ≡ "{\"response\": \"<p> </p>\"}")

decoded : (seen rest : Bytes) (data_ : RawMessage) → decode seen ≡ some (data_, rest) → IsJson data_
decoded [] rest data_ e = cc e
decoded (b ∷ seen) rest data_ e = elim (Bool-cases (b == 123)) [
  | inl brace ↦ inl (cc (rw brace at e))
  | inr other ↦ cc (rw other at e)
]

pub http-MakesJson : MakesJson http IsJson
http-MakesJson = record { decoded = decoded; marshalled = λ bytes. inr refl }

abbrev pub client : Client
client = Clients.new resolved

abbrev pub post_role : Request
post_role = record { method = "POST"; path = "/api/v1/roles"; body = "{}" }
