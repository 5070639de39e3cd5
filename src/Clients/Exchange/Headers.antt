-- ===== src/Clients/Exchange/Headers.antt =====
-- The headers of a request.
use Prim.Native.String
use text.Mathlib.TextLemmas.{append-nil}
use signoz_operator.Prelude.{
  String, ◌≡◌, ◌≢◌, refl, sym, ap, concat, ◌∙◌, false, some, [], get, put, get-put, str_eq, eq_iff,
  eq_refl, Bool-cases, inl, inr, RawMessage,
}
use signoz_operator.ProviderConfig.Resolved.{
  ResolvedProviderConfigSpec, ResolvedHeaderAuthentication, set_auth_header, set_header,
  header_value,
}
use signoz_operator.Clients.Exchange.{Http, headers_of}

apart : (s t : String) → s ≢ t → str_eq s t ≡ false
apart s t h = elim (Bool-cases (str_eq s t)) [
  | inl same ↦ absurd (h ((eq_iff s t).0 same))
  | inr other ↦ other
]

module _ (http : Http) (resolved : ResolvedProviderConfigSpec) (body : RawMessage) where
  get-agent :
      (auth : ResolvedHeaderAuthentication)
      → resolved.auth ≡ some auth
      → http.canonical auth.name ≢ http.canonical "User-Agent"
      → get
          (put
            (set_auth_header http.canonical resolved [])
            (http.canonical "User-Agent")
            http.user_agent)
          (http.canonical auth.name)
        ≡ some (header_value auth)
  unfolding set_auth_header set_header get put
  get-agent auth e agent =
      get-put (set_auth_header http.canonical resolved []) (http.canonical "User-Agent")
        (http.canonical auth.name) http.user_agent
      ∙ rw (apart _ _ (λ p. agent (sym p)), e, eq_refl (http.canonical auth.name)) refl

  get-headers_value :
      (auth : ResolvedHeaderAuthentication)
      → resolved.auth ≡ some auth
      → http.canonical auth.name ≢ http.canonical "User-Agent"
      → http.canonical auth.name ≢ http.canonical "Content-Type"
      → get (headers_of http resolved body) (http.canonical auth.name) ≡ some (header_value auth)
  unfolding headers_of
  get-headers_value auth e agent content = elim (Bool-cases (str_eq body "")) [
    | inl no_body ↦ rw no_body (get-agent auth e agent)
    | inr with_body ↦
        rw with_body
          (get-put _ _ _ _ ∙ rw (apart _ _ (λ p. content (sym p))) (get-agent auth e agent))
  ]

  value-scheme :
      (auth : ResolvedHeaderAuthentication)
      → ((auth.scheme ≡ "" → header_value auth ≡ auth.value)
          × (auth.scheme ≢ ""
              → header_value auth ≡ String.◌++◌ auth.scheme (String.◌++◌ " " auth.value)))
  unfolding header_value concat
  value-scheme auth =
      (λ none_. rw none_ refl, λ some_. rw (apart auth.scheme "" some_, append-nil auth.value) refl)

  -- The header of the provider config is sent, unless it is one of the two that the client sets over
  -- it: User-Agent, and Content-Type on a request with a body. Without a scheme it holds the
  -- credential alone, and with one the scheme, a space and the credential.
  pub get-headers_of :
      (auth : ResolvedHeaderAuthentication)
      → resolved.auth ≡ some auth
      → http.canonical auth.name ≢ http.canonical "User-Agent"
      → http.canonical auth.name ≢ http.canonical "Content-Type"
      → (auth.scheme ≡ ""
          → get (headers_of http resolved body) (http.canonical auth.name) ≡ some auth.value)
        × (auth.scheme ≢ ""
            → get (headers_of http resolved body) (http.canonical auth.name)
              ≡ some (String.◌++◌ auth.scheme (String.◌++◌ " " auth.value)))
  get-headers_of auth e agent content = (
    λ h. get-headers_value auth e agent content ∙ ap some ((value-scheme auth).0 h),
    λ h. get-headers_value auth e agent content ∙ ap some ((value-scheme auth).1 h),
  )
