-- ===== src/Examples/Requests.antt =====
-- The theorems on the client's requests, at concrete inputs.
use signoz_operator.Prelude.{◌≢◌, ◌≡◌, ◌≤◌, refl, some, none, [], ◌∷◌, get, text_ne, length}
use signoz_operator.Clients.Exchange.{
  Http, exchange, headers_of, snippet, Bytes, signoz, after_parse, after_request, after_send,
  after_copy, limited, read_failure, up_to, valid_data, valid_value, body_of,
}
use signoz_operator.Clients.Exchange.Snippet.{IsOneLine, Quotes, snippet_bounded}
use signoz_operator.Clients.Exchange.Contract.{MakesJson}
use signoz_operator.Clients.Exchange.Accepted.{IsServed, exchange-IsServed}
use signoz_operator.Errors.{ok, new_from_http_response}
use signoz_operator.Adapters.Exchange
use signoz_operator.Adapters.Exchange.{accepted, of_status}
use signoz_operator.Samples.Json.{library}
use signoz_operator.Samples.Passes.{formatting}
use signoz_operator.Clients.Exchange.Headers.{get-headers_of}
use signoz_operator.ProviderConfig.Resolved.{ResolvedHeaderAuthentication}
use signoz_operator.Samples.Configs.{resolved}
use signoz_operator.Samples.Http.{http, IsJson, http-MakesJson, client, post_role}

abbrev page : Bytes
page = 60 ∷ 10 ∷ 62 ∷ []

snippet_bounded_example :
    (length (snippet page) ≤ 200) × IsOneLine (snippet page) × Quotes (snippet page) page
snippet_bounded_example = snippet_bounded page

abbrev api_key : ResolvedHeaderAuthentication
api_key = record { name = "SIGNOZ-API-KEY"; scheme = ""; value = "s3cret" }

get-headers_of_example :
    (api_key.scheme ≡ "" → get (headers_of http resolved "{}") "SIGNOZ-API-KEY" ≡ some "s3cret")
    × (api_key.scheme ≢ "" → get (headers_of http resolved "{}") "SIGNOZ-API-KEY" ≡ some " s3cret")
get-headers_of_example =
    get-headers_of http resolved "{}" api_key refl (text_ne _ _ refl) (text_ne _ _ refl)

-- With a client that gets a JSON page with a success status.
abbrev answering : Http
answering = record http {
  send = λ tls h sent.
      ok (record { status = 200; stream = record { content = 123 ∷ 125 ∷ []; failure = none } });
}

answering-MakesJson : MakesJson answering IsJson
answering-MakesJson = record {
  decoded = http-MakesJson.decoded;
  marshalled = http-MakesJson.marshalled;
}

answers :
    (Exchange.exchange (signoz answering library.gjson formatting client) post_role []).0 ≡ ok "{}"
unfolding Exchange.exchange accepted of_status new_from_http_response exchange after_parse
    after_request after_send after_copy limited read_failure up_to valid_data valid_value body_of
answers = refl

exchange-IsServed_example :
    IsServed answering IsJson answering-MakesJson library.gjson formatting client [] post_role "{}"
exchange-IsServed_example =
    exchange-IsServed answering IsJson answering-MakesJson library.gjson formatting client post_role
      [] "{}" answers
