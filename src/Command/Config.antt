-- ===== src/Command/Config.antt =====
-- cmd/config.go and NewLoggerWithZap of internal/instrumentation/logger.go.
pub mod Watched
use signoz_operator.Prelude.{
  ℕ, ℤ, String, Bool, true, false, not, Option, none, some, List, [], ◌∷◌, Dict, put, concat,
  str_eq, if◌then◌else◌,
}
use signoz_operator.Errors.{Error, error_text, wrapped, foreign}

-- Durations are in nanoseconds.
pub record Config : Type 0 where
  pub log_level : String
  pub metrics_bind_address : String
  pub health_probe_bind_address : String
  pub leader_elect : Bool
  pub metrics_secure : Bool
  pub webhook_cert_path : String
  pub webhook_cert_name : String
  pub webhook_cert_key : String
  pub metrics_cert_path : String
  pub metrics_cert_name : String
  pub metrics_cert_key : String
  pub enable_http2 : Bool
  pub default_resources_interval : ℤ
  pub default_resources_retry_interval : ℤ
  pub default_resources_timeout : ℤ
  pub watch_namespaces : List String
  pub operator_namespace : String

-- What RegisterFlags gives each flag.
abbrev pub registered : Config
registered = record {
  log_level = "info";
  metrics_bind_address = "0";
  health_probe_bind_address = ":8081";
  leader_elect = false;
  metrics_secure = true;
  webhook_cert_path = "";
  webhook_cert_name = "tls.crt";
  webhook_cert_key = "tls.key";
  metrics_cert_path = "";
  metrics_cert_name = "tls.crt";
  metrics_cert_key = "tls.key";
  enable_http2 = false;
  default_resources_interval = ℤ.pos 600000000000;
  default_resources_retry_interval = ℤ.pos 60000000000;
  default_resources_timeout = ℤ.pos 30000000000;
  watch_namespaces = [];
  operator_namespace = "";
}

-- strings.TrimSpace, the verb %q, and zapcore.ParseLevel, which may refuse a level.
pub record Host : Type 0 where
  pub trim_space : String → String
  pub quote : String → String
  pub parse_level : String → Option Error

-- What an option does to the protocols of a TLS config.
abbrev pub TlsOption : Type 0
TlsOption = List String → List String

pub record WebhookOptions : Type 0 where
  pub tls_opts : List TlsOption
  pub cert_dir : String
  pub cert_name : String
  pub key_name : String

pub record MetricsOptions : Type 0 where
  pub bind_address : String
  pub secure_serving : Bool
  pub tls_opts : List TlsOption
  pub cert_dir : String
  pub cert_name : String
  pub key_name : String

-- The options of the cache: its namespaces, or none where it watches all.
pub record CacheOptions : Type 0 where
  pub default_namespaces : Option (Dict (Unit {0}))

unfoldable pub tls_options : Config → List TlsOption
tls_options c = if not c.enable_http2 then (λ protos. "http/1.1" ∷ []) ∷ [] else []

unfoldable pub build_webhook_server_options : Config → WebhookOptions
build_webhook_server_options c =
    if not (str_eq c.webhook_cert_path "")
    then record {
      tls_opts = tls_options c;
      cert_dir = c.webhook_cert_path;
      cert_name = c.webhook_cert_name;
      key_name = c.webhook_cert_key;
    }
    else record { tls_opts = tls_options c; cert_dir = ""; cert_name = ""; key_name = "" }

unfoldable pub build_metrics_server_options : Config → MetricsOptions
build_metrics_server_options c =
    if not (str_eq c.metrics_cert_path "")
    then record {
      bind_address = c.metrics_bind_address;
      secure_serving = c.metrics_secure;
      tls_opts = tls_options c;
      cert_dir = c.metrics_cert_path;
      cert_name = c.metrics_cert_name;
      key_name = c.metrics_cert_key;
    }
    else record {
      bind_address = c.metrics_bind_address;
      secure_serving = c.metrics_secure;
      tls_opts = tls_options c;
      cert_dir = "";
      cert_name = "";
      key_name = "";
    }

module _ (host : Host) where
  unfoldable pub bad_level : String → Option Error → Option Error
  bad_level level none = none
  bad_level level (some e) = some (
      wrapped (concat ("level " ∷ host.quote level ∷ " is not a valid level: " ∷ error_text e ∷ []))
        e)

  -- NewLoggerWithZap, by its error.
  unfoldable pub new_logger_with_zap : String → Option Error
  new_logger_with_zap level = bad_level level (host.parse_level level)

  unfoldable pub build_logger : Config → Option Error
  build_logger c = new_logger_with_zap c.log_level

  unfoldable pub check_namespace : Option Error → String → Option Error
  check_namespace (some e) namespace = some e
  check_namespace none namespace =
      if str_eq (host.trim_space namespace) ""
      then some (
          foreign
            "--operator-namespace is required: a ClusterProviderConfig's Secret and ConfigMap references resolve there")
      else none

  unfoldable pub build_config : Config → Option Error
  build_config c = check_namespace (build_logger c) c.operator_namespace

  -- The loop over the namespaces to watch.
  unfoldable pub add_namespaces : List String → Dict (Unit {0}) → Dict (Unit {0})
  add_namespaces [] namespaces = namespaces
  add_namespaces (ns ∷ rest) namespaces = add_namespaces rest (
      if not (str_eq (host.trim_space ns) "")
      then put namespaces (host.trim_space ns) tt
      else namespaces)

  unfoldable pub namespaces_of : List String → String → Option (Dict (Unit {0}))
  namespaces_of [] operator_namespace = none
  namespaces_of (ns ∷ rest) operator_namespace =
      some (put (add_namespaces (ns ∷ rest) []) operator_namespace tt)

  unfoldable pub build_cache_options : Config → CacheOptions
  build_cache_options c = record {
    default_namespaces = namespaces_of c.watch_namespaces c.operator_namespace;
  }
