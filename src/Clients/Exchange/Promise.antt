-- ===== src/Clients/Exchange/Promise.antt =====
-- That Exchange keeps what the interface SigNoz promises of it.
use signoz_operator.Prelude.{
  ℕ, zero, suc, ◌+◌, ◌≤◌, sym, ap, ◌∙◌, arith, ◌≡◌, refl, false, ◌&&◌, Option, none, some, List, [],
  ◌∷◌, length, ltb, leb, Bool-cases, inl, inr, RawMessage,
}
use signoz_operator.Errors.{Error, Result, ok, err, reason_for_error, new, wrap, as_base}
use signoz_operator.Clients.{Client}
use signoz_operator.Adapters.Exchange.{Request, Response, Exchanged}
use signoz_operator.Clients.Exchange.{
  Http, Bytes, HttpResponse, Reference, Sent, Stream, up_to, limited, read_failure, valid_data,
  valid_value, body_of, after_copy, after_send, after_request, after_parse, exchange, not_json,
  max_response_body,
}
use signoz_operator.ProviderConfig.Resolved.{Url}
use signoz_operator.Clients.Exchange.Contract.{
  MakesJson, IsValid, IsBodyOf, IsRelayed, IsSentFor, IsPromised, address,
}

pair_rest : {p q : RawMessage × Bytes} → some p ≡ some q → p.1 ≡ q.1
pair_rest e = cc e

-- What comes through below the limit is all there is.
up_to_all : (n : ℕ) (bs : Bytes) → ltb n (length (up_to (suc n) bs)) ≡ false → up_to (suc n) bs ≡ bs
unfolding up_to
up_to_all n [] h = refl
up_to_all zero (b ∷ bs) h = ground arith
up_to_all (suc n) (b ∷ bs) h = ap (λ t. b ∷ t) (up_to_all n bs (ground arith))

whole_limited :
    (n : ℕ) (stream : Stream)
    → ltb n (length (limited (suc n) stream)) ≡ false
    → (limited (suc n) stream ≡ stream.content) × (length stream.content ≤ n)
unfolding limited
whole_limited n stream h = let same = up_to_all n stream.content h in (same, ground (arith, same))

not_failed :
    (n : ℕ) (stream : Stream)
    → length stream.content ≤ n
    → read_failure (suc n) stream ≡ stream.failure
unfolding read_failure
not_failed n stream h = ground arith

module _ (http : Http) (IsJson : RawMessage → Type 0) where
  module _ (json : MakesJson http IsJson) where
    valid_value-IsValid :
        (seen : Bytes) (found : Option (RawMessage × Bytes))
        → http.decode seen ≡ found
        → IsValid http IsJson seen (valid_value http found)
    unfolding valid_value
    valid_value-IsValid seen none e = λ data_ (rest, found, over). cc (e, found)
    valid_value-IsValid seen (some (data_, rest)) e = elim (Bool-cases (http.more rest)) [
      | inl more ↦
          rw more (λ other (rest', found, over). cc (more, over, pair_rest (sym e ∙ found)))
      | inr over ↦ rw over (json.decoded seen rest data_ e, (rest, e, over))
    ]

    valid_data-IsValid : (seen : Bytes) → IsValid http IsJson seen (valid_data http seen)
    unfolding valid_data
    valid_data-IsValid seen = valid_value-IsValid seen _ refl

    body_of-IsBodyOf :
        (status : ℕ) (seen : Bytes) (valid : Option RawMessage)
        → IsValid http IsJson seen valid
        → IsBodyOf http IsJson status seen (body_of http status seen valid)
    unfolding body_of not_json new reason_for_error as_base
    body_of-IsBodyOf status [] valid h = (refl, inl (refl, refl))
    body_of-IsBodyOf status (b ∷ bs) (some data_) h = (refl, inr (inl h))
    body_of-IsBodyOf status (b ∷ bs) none h = elim (Bool-cases (leb 200 status && ltb status 300)) [
      | inl success ↦ rw success (inl refl)
      | inr failure ↦ rw failure (refl, inr (inr (json.marshalled _, failure, h, refl)))
    ]

    copied :
        (resp : HttpResponse) (answer : Result HttpResponse) (result : Result Response)
        → answer ≡ ok resp
        → length resp.stream.content ≤ max_response_body
        → resp.stream.failure ≡ none
        → IsBodyOf http IsJson resp.status resp.stream.content result
        → IsRelayed http IsJson answer result
    copied resp answer (ok r) e size whole (status, is_body) =
        (resp, e, (status, size, whole, is_body))
    copied resp answer (err e') e size whole h = h

    after_copy-IsRelayed :
        (resp : HttpResponse) (failure : Option Error)
        → read_failure (max_response_body + 1) resp.stream ≡ failure
        → IsRelayed http IsJson
            (ok resp)
            (after_copy http resp.status (limited (max_response_body + 1) resp.stream) failure)
    unfolding after_copy new wrap reason_for_error as_base
    after_copy-IsRelayed resp (some e) h = inl refl
    after_copy-IsRelayed resp none h =
        let seen = limited (max_response_body + 1) resp.stream in
        elim (Bool-cases (ltb max_response_body (length seen))) [
          | inl over ↦ rw over (inl refl)
          | inr within ↦
              let (same, size) = whole_limited max_response_body resp.stream within in
              rw within (
                copied resp (ok resp) _ refl size
                  (sym (not_failed max_response_body resp.stream size) ∙ h)
                  (rw same (
                    body_of-IsBodyOf resp.status resp.stream.content _
                      (valid_data-IsValid resp.stream.content))))
        ]

    after_send-IsRelayed :
        (answer : Result HttpResponse) → IsRelayed http IsJson answer (after_send http answer)
    unfolding after_send wrap reason_for_error as_base
    after_send-IsRelayed (err e) = inl refl
    after_send-IsRelayed (ok resp) = after_copy-IsRelayed resp _ refl

    module _ (c : Client) (h : List Exchanged) (request : Request) where
      promised :
          (sent : Sent) (result : Result Response)
          → IsSentFor http IsJson c h request sent
          → IsRelayed http IsJson (http.send c.tls h sent) result
          → IsPromised http IsJson c h request result
      promised sent (ok r) for_request (resp, answered, relays) =
          (sent, resp, for_request, answered, relays)
      promised sent (err e) for_request refusal = refusal

      after_request-IsPromised :
          (ref : Reference) (url : Result Url)
          → http.parse_path request.path ≡ ok ref
          → http.new_request request.method (address http IsJson c ref) ≡ url
          → IsPromised http IsJson c h request (after_request http c h request url)
      unfolding after_request wrap reason_for_error as_base
      after_request-IsPromised ref (err e) parsed made = inr refl
      after_request-IsPromised ref (ok url) parsed made =
          promised _ _ (ref, parsed, made, refl, refl) (after_send-IsRelayed _)

      after_parse-IsPromised :
          (ref : Result Reference)
          → http.parse_path request.path ≡ ref
          → IsPromised http IsJson c h request (after_parse http c h request ref)
      unfolding after_parse wrap reason_for_error as_base
      after_parse-IsPromised (err e) parsed = inr refl
      after_parse-IsPromised (ok ref) parsed = after_request-IsPromised ref _ parsed refl

      pub exchange-IsPromised : IsPromised http IsJson c h request (exchange http c h request)
      unfolding exchange
      exchange-IsPromised = after_parse-IsPromised (http.parse_path request.path) refl
