-- ===== src/ProviderConfig/Spec.antt =====
-- api/resources/v1alpha1/providerconfig_types.go: the spec of a provider config and the names that
-- it references. A set of names is a map to the empty struct; a pointer that may be nil is an
-- `Option`.
use signoz_operator.Prelude.{
  String, Bool, Option, none, some, List, [], ◌∷◌, ◌++◌, Dict, put, str_eq, if◌then◌else◌,
}

-- corev1's SecretKeySelector and ConfigMapKeySelector.
pub record KeySelector : Type 0 where
  pub name : String
  pub key : String

pub record ValueSource : Type 0 where
  pub secret_key_ref : Option KeySelector
  pub config_map_key_ref : Option KeySelector

pub record Endpoint : Type 0 where
  pub value : String
  pub value_from : Option ValueSource

pub record HeaderAuth : Type 0 where
  pub name : String
  pub scheme : String
  pub value : String
  pub value_from : Option ValueSource

pub record TlsSettings : Type 0 where
  pub insecure_skip_verify : Bool
  pub ca_secret_ref : Option KeySelector

-- `auth` is Authentication, a struct with the one field Header.
pub record ProviderConfigSpec : Type 0 where
  pub endpoint : Endpoint
  pub auth : Option HeaderAuth
  pub tls : Option TlsSettings

header_sources : Option HeaderAuth → List (Option ValueSource)
header_sources none = []
header_sources (some header) = header.value_from ∷ []

ca_sources : Option KeySelector → List (Option ValueSource)
ca_sources none = []
ca_sources (some ref) = some (record { secret_key_ref = some ref; config_map_key_ref = none }) ∷ []

tls_sources : Option TlsSettings → List (Option ValueSource)
unfolding ca_sources
tls_sources none = []
tls_sources (some tls) = ca_sources tls.ca_secret_ref

unfoldable pub value_sources : ProviderConfigSpec → List (Option ValueSource)
unfolding header_sources tls_sources
value_sources s = s.endpoint.value_from ∷ (header_sources s.auth ++ tls_sources s.tls)

abbrev pub Names : Type 0
Names = Dict (Unit {0})

unfoldable pub add_name : Option KeySelector → Names → Names
add_name none names = names
add_name (some ref) names = if str_eq ref.name "" then names else put names ref.name tt

unfoldable pub add_secret : Option ValueSource → Names → Names
unfolding add_name
add_secret none names = names
add_secret (some src) names = add_name src.secret_key_ref names

unfoldable pub add_config_map : Option ValueSource → Names → Names
unfolding add_name
add_config_map none names = names
add_config_map (some src) names = add_name src.config_map_key_ref names

unfoldable pub secrets_of : List (Option ValueSource) → Names → Names
secrets_of [] names = names
secrets_of (src ∷ sources) names = secrets_of sources (add_secret src names)

unfoldable pub config_maps_of : List (Option ValueSource) → Names → Names
config_maps_of [] names = names
config_maps_of (src ∷ sources) names = config_maps_of sources (add_config_map src names)

unfoldable pub secret_names : ProviderConfigSpec → Names
secret_names s = secrets_of (value_sources s) []

unfoldable pub config_map_names : ProviderConfigSpec → Names
config_map_names s = config_maps_of (value_sources s) []
