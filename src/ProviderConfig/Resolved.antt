-- ===== src/ProviderConfig/Resolved.antt =====
-- internal/providerconfig/resolved.go: a provider config with every reference read, and what a
-- client makes of it.
use signoz_operator.Prelude.{
  String, Bool, not, ◌&&◌, Option, none, some, [], ◌∷◌, Dict, put, concat, str_eq, if◌then◌else◌,
}

-- What the operator looks at in a *url.URL, and the whole of its text.
pub record Url : Type 0 where
  pub scheme : String
  pub host : String
  pub text : String

-- A certificate pool, by the PEM bundle that it was filled from.
pub record CertPool : Type 0 where
  pub bundle : String

pub record ResolvedHeaderAuthentication : Type 0 where
  pub name : String
  pub scheme : String
  pub value : String

pub record ResolvedTlsConfig : Type 0 where
  pub insecure_skip_verify : Bool
  pub ca_pool : Option CertPool

-- `auth` is ResolvedAuthentication, a struct with the one field Header.
pub record ResolvedProviderConfigSpec : Type 0 where
  pub endpoint : Url
  pub auth : Option ResolvedHeaderAuthentication
  pub tls : Option ResolvedTlsConfig

-- The fields of a tls.Config that TLSClientConfig sets; its MinVersion is always TLS 1.2.
pub record TlsConfig : Type 0 where
  pub insecure_skip_verify : Bool
  pub root_cas : Option CertPool

unfoldable pub header_value : ResolvedHeaderAuthentication → String
unfolding concat
header_value h = if str_eq h.scheme "" then h.value else concat (h.scheme ∷ " " ∷ h.value ∷ [])

-- A header is a map from names in their canonical form, which `canonical` gives.
unfoldable pub set_header :
    (String → String) → Option ResolvedHeaderAuthentication → Dict String → Dict String
unfolding header_value
set_header canonical none h = h
set_header canonical (some auth) h = put h (canonical auth.name) (header_value auth)

unfoldable pub set_auth_header :
    (String → String) → ResolvedProviderConfigSpec → Dict String → Dict String
unfolding set_header
set_auth_header canonical c h = set_header canonical c.auth h

has_no_pool : Option CertPool → Bool
has_no_pool none = Bool.true
has_no_pool (some p) = Bool.false

tls_of : Option ResolvedTlsConfig → Option TlsConfig
unfolding has_no_pool
tls_of none = none
tls_of (some t) =
    if not t.insecure_skip_verify && has_no_pool t.ca_pool
    then none
    else some (record { insecure_skip_verify = t.insecure_skip_verify; root_cas = t.ca_pool })

unfoldable pub tls_client_config : ResolvedProviderConfigSpec → Option TlsConfig
unfolding tls_of
tls_client_config c = tls_of c.tls
