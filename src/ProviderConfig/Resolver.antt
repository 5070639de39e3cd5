-- ===== src/ProviderConfig/Resolver.antt =====
-- internal/providerconfig/resolvers: the fields that cache.go resolves, and cached_resolver.go.
pub mod Kept
pub mod Reads
pub mod Valid
use signoz_operator.Prelude.{
  String, Bool, true, false, not, ◌&&◌, ◌||◌, Option, none, some, List, [], ◌∷◌, get, str_eq,
  concat, if◌then◌else◌,
}
use signoz_operator.Errors.{
  Error, Result, ok, err, error_text, new, with_code, wrapped, foreign, invalid_input, not_found,
}
use signoz_operator.Core.{ProviderConfigRef}
use signoz_operator.ProviderConfig.Spec.{
  KeySelector, ValueSource, HeaderAuth, TlsSettings, ProviderConfigSpec, secret_names,
  config_map_names,
}
use signoz_operator.ProviderConfig.Resolved.{
  Url, ResolvedHeaderAuthentication, ResolvedTlsConfig, ResolvedProviderConfigSpec,
}
use signoz_operator.ProviderConfig.Cache.{
  RefKind, secret_kind, config_map_kind, Referent, Reader, Cache, no_slots, kind_name, referent,
  Read,
}

abbrev pub default_header_name : String
default_header_name = "SIGNOZ-API-KEY"

abbrev pub Resolving : Type 0 → Type 0
Resolving A = Cache → Result A × Cache

unfoldable pub and_then : {A B : Type 0} → (A → Resolving B) → Result A × Cache → Result B × Cache
and_then f (ok a, c) = f a c
and_then f (err e, c) = (err e, c)

infixl 5 ◌>>=◌
abbrev pub ◌>>=◌ : {A B : Type 0} → Resolving A → (A → Resolving B) → Resolving B
◌>>=◌ m f c = and_then f (m c)

abbrev pub pure : {A : Type 0} → A → Resolving A
pure a c = (ok a, c)

abbrev pub fail : {A : Type 0} → Error → Resolving A
fail e c = (err e, c)

module _ (reader : Reader) where
  abbrev quote : String → String
  quote = reader.formatting.quote

  -- fmt.Errorf("%s: %w", path, err)
  under : String → Error → Error
  under path e = wrapped (concat (path ∷ ": " ∷ error_text e ∷ [])) e

  unfoldable pub at_path : {A : Type 0} → String → Result A × Cache → Result A × Cache
  unfolding under
  at_path path (ok a, c) = (ok a, c)
  at_path path (err e, c) = (err (under path e), c)

  unfoldable pub key_of : RefKind → String → KeySelector → Option String → Result String
  key_of kind path ref (some value) = ok value
  key_of kind path ref none = err (
      with_code
        (new not_found (
          concat (
            path
            ∷ ": "
            ∷ kind_name kind
            ∷ " "
            ∷ quote ref.name
            ∷ " has no key "
            ∷ quote ref.key
            ∷ [])))
        "KeyNotFound")

  -- The value of a key of a Secret or ConfigMap.
  unfoldable pub key_value : RefKind → String → KeySelector → Resolving String
  unfolding at_path key_of
  key_value kind path ref = do
    o ← λ c. at_path path (referent reader kind ref.name c)
    λ c. (key_of kind path ref (get o.contents ref.key), c)

  spec_invalid : String → Error
  spec_invalid message = with_code (new invalid_input message) "SpecInvalid"

  unfoldable pub sourced : String → Option KeySelector → Option KeySelector → Resolving String
  unfolding spec_invalid
  sourced path (some ref) config_map = do
    value ← key_value secret_kind (concat (path ∷ ".valueFrom.secretKeyRef" ∷ [])) ref
    pure (reader.trim_space value)
  sourced path none (some ref) = do
    value ← key_value config_map_kind (concat (path ∷ ".valueFrom.configMapKeyRef" ∷ [])) ref
    pure (reader.trim_space value)
  sourced path none none = fail (
      spec_invalid
        (concat (path ∷ ".valueFrom: set exactly one of secretKeyRef or configMapKeyRef" ∷ [])))

  unfoldable pub value_of : String → String → Option ValueSource → Resolving String
  unfolding spec_invalid
  value_of path inline none =
      if str_eq inline ""
      then fail (spec_invalid (concat (path ∷ ": set exactly one of value or valueFrom" ∷ [])))
      else pure (reader.trim_space inline)
  value_of path inline (some from) = sourced path from.secret_key_ref from.config_map_key_ref

  endpoint_invalid : String → Error
  endpoint_invalid message = with_code (new invalid_input message) "EndpointInvalid"

  -- The switch on the parsed URL. No message carries a part of the value.
  unfoldable pub check_url : Option Url → Result Url
  unfolding endpoint_invalid
  check_url none = err (endpoint_invalid "spec.endpoint: value is not a valid URL")
  check_url (some url) =
      if not (str_eq url.scheme "http") && not (str_eq url.scheme "https")
      then err (endpoint_invalid "spec.endpoint: URL scheme must be http or https")
      else if str_eq url.host ""
      then err (endpoint_invalid "spec.endpoint: URL has no host")
      else ok url

  unfoldable pub endpoint : ProviderConfigSpec → Resolving Url
  endpoint spec = do
    raw ← value_of "spec.endpoint" spec.endpoint.value spec.endpoint.value_from
    λ c. (check_url (reader.parse_url raw), c)

  unfoldable pub header_of : HeaderAuth → String → Result ResolvedHeaderAuthentication
  header_of header value =
      if str_eq value ""
      then err (
          with_code (new invalid_input "spec.auth.header: credential resolved to an empty value")
            "ValueEmpty")
      else ok (record {
        name = if str_eq header.name "" then default_header_name else header.name;
        scheme = header.scheme;
        value = value;
      })

  unfoldable pub authentication : Option HeaderAuth → Resolving ResolvedHeaderAuthentication
  unfolding spec_invalid
  authentication none = fail (spec_invalid "spec.auth: no authentication method set")
  authentication (some header) = do
    value ← value_of "spec.auth.header" header.value header.value_from
    λ c. (header_of header value, c)

  unfoldable pub pool_of : Bool → KeySelector → String → Result ResolvedTlsConfig
  pool_of skip ref bundle =
      if reader.holds_certificate bundle
      then ok (record { insecure_skip_verify = skip; ca_pool = some (record { bundle = bundle }) })
      else err (
          with_code
            (new invalid_input (
              concat (
                "spec.tls.caSecretRef: Secret "
                ∷ quote ref.name
                ∷ " key "
                ∷ quote ref.key
                ∷ " holds no PEM certificate"
                ∷ [])))
            "CABundleInvalid")

  unfoldable pub ca_of : Bool → Option KeySelector → Resolving ResolvedTlsConfig
  unfolding pool_of
  ca_of skip none = pure (record { insecure_skip_verify = skip; ca_pool = none })
  ca_of skip (some ref) = do
    bundle ← key_value secret_kind "spec.tls.caSecretRef" ref
    λ c. (pool_of skip ref bundle, c)

  unfoldable pub trust : Option TlsSettings → Resolving (Option ResolvedTlsConfig)
  unfolding ca_of
  trust none = pure none
  trust (some config) = do
    resolved ← ca_of config.insecure_skip_verify config.ca_secret_ref
    pure (some resolved)

  -- Every reference is read up front, whatever its answer.
  unfoldable pub read_all : RefKind → List String → Cache → Cache
  read_all kind [] c = c
  read_all kind (name ∷ names) c = read_all kind names (referent reader kind name c).1

  unfoldable pub new_cache : String → Cache
  new_cache namespace = record {
    namespace = namespace;
    secrets = no_slots;
    config_maps = no_slots;
    reads = [];
  }

  unfoldable pub resolve_fields : ProviderConfigSpec → Resolving ResolvedProviderConfigSpec
  resolve_fields spec = do
    url ← endpoint spec
    auth ← authentication spec.auth
    tls ← trust spec.tls
    pure (record { endpoint = url; auth = some auth; tls = tls })

  -- Resolve. The versions are those of the cache that it returns.
  unfoldable pub resolve : String → ProviderConfigSpec → Result ResolvedProviderConfigSpec × Cache
  unfolding resolve_fields
  resolve namespace spec = resolve_fields spec (
      read_all config_map_kind (reader.range (config_map_names spec))
        (read_all secret_kind (reader.range (secret_names spec)) (new_cache namespace)))
