-- ===== src/ProviderConfig/Cache.antt =====
-- The reads of internal/providerconfig/resolvers/cache.go: each referenced object is read once, its
-- version is recorded, and a failed read is answered again from memory. All keys are in the
-- cache's namespace, so its maps are keyed by the name, one set of maps for each kind.
pub mod Once
use signoz_operator.Prelude.{
  ℕ, String, Bool, true, false, Option, none, some, List, [], ◌∷◌, Dict, get, put, concat,
  if◌then◌else◌, Formatting,
}
use signoz_operator.Errors.{
  Error, Result, ok, err, error_text, new, with_code, internal, not_found, Code,
}
use signoz_operator.ProviderConfig.Resolved.{Url}

pub data RefKind : Type 0 where
  secret_kind config_map_kind : RefKind

-- What the operator reads of a corev1.Secret or a corev1.ConfigMap; `contents` is its Data.
pub record Referent : Type 0 where
  pub resource_version : String
  pub contents : Dict String

-- A read of the API server with its answer.
pub record Read : Type 0 where
  pub kind : RefKind
  pub namespace : String
  pub name : String
  pub answer : Result Referent

-- The reader, whose answer may depend on the reads before, newest first, and the library routines:
-- apierrors.IsNotFound, url.Parse, strings.TrimSpace, the PEM test of AppendCertsFromPEM, and the
-- order in which a map is ranged over.
pub record Reader : Type 0 where
  pub read : List Read → RefKind → String → String → Result Referent
  pub is_api_not_found : Error → Bool
  pub parse_url : String → Option Url
  pub trim_space : String → String
  pub holds_certificate : String → Bool
  pub range : Dict (Unit {0}) → List String
  pub formatting : Formatting

-- The objects read, the failed reads and the versions observed of one kind.
pub record Slots : Type 0 where
  pub objects : Dict Referent
  pub errs : Dict Error
  pub versions : Dict String

pub record Cache : Type 0 where
  pub namespace : String
  pub secrets : Slots
  pub config_maps : Slots
  pub reads : List Read

abbrev pub no_slots : Slots
no_slots = record { objects = []; errs = []; versions = [] }

abbrev pub slots_of : RefKind → Cache → Slots
slots_of secret_kind c = c.secrets
slots_of config_map_kind c = c.config_maps

abbrev pub with_slots : RefKind → Slots → Cache → Cache
with_slots secret_kind slots c = record c { secrets = slots }
with_slots config_map_kind slots c = record c { config_maps = slots }

-- The codes of internal/providerconfig/reason.go.
abbrev pub code_reference_read_failed : Code
code_reference_read_failed = "ReferenceReadFailed"

abbrev pub not_found_code : RefKind → Code
not_found_code secret_kind = "SecretNotFound"
not_found_code config_map_kind = "ConfigMapNotFound"

abbrev pub kind_name : RefKind → String
kind_name secret_kind = "Secret"
kind_name config_map_kind = "ConfigMap"

module _ (reader : Reader) where
  abbrev quote : String → String
  quote = reader.formatting.quote

  unfoldable pub read_error : RefKind → String → String → Error → Error
  read_error kind namespace name e =
      if reader.is_api_not_found e
      then with_code
          (new not_found (
            concat (
              kind_name kind
              ∷ " "
              ∷ quote name
              ∷ " not found in namespace "
              ∷ quote namespace
              ∷ [])))
          (not_found_code kind)
      else with_code
          (new internal (
            concat (
              "could not read "
              ∷ kind_name kind
              ∷ " "
              ∷ quote name
              ∷ " in namespace "
              ∷ quote namespace
              ∷ ": "
              ∷ error_text e
              ∷ [])))
          code_reference_read_failed

  -- `fail` and `observe` record a read's failure, or the object and its version.
  unfoldable pub record_read : RefKind → String → Result Referent → Cache → Result Referent × Cache
  record_read kind name (err e) c =
      let failure = read_error kind c.namespace name e in
      let slots = slots_of kind c in
      (err failure, with_slots kind (record slots { errs = put slots.errs name failure }) c)
  record_read kind name (ok o) c =
      let slots = slots_of kind c in
      let slots' = record slots {
        objects = put slots.objects name o;
        versions = put slots.versions name o.resource_version;
      } in
      (ok o, with_slots kind slots' c)

  unfoldable pub fetch : RefKind → String → Cache → Result Referent × Cache
  fetch kind name c =
      let answer = reader.read c.reads kind c.namespace name in
      let done : Read = record {
        kind = kind;
        namespace = c.namespace;
        name = name;
        answer = answer;
      } in
      record_read kind name answer (record c { reads = done ∷ c.reads })

  -- A failure that is remembered, then an object that is, then a read.
  unfoldable pub recall :
      RefKind → String → Option Error → Option Referent → Cache → Result Referent × Cache
  recall kind name (some e) o c = (err e, c)
  recall kind name none (some o) c = (ok o, c)
  recall kind name none none c = fetch kind name c

  -- The methods `secret` and `configMap`.
  unfoldable pub referent : RefKind → String → Cache → Result Referent × Cache
  referent kind name c =
      recall kind name (get (slots_of kind c).errs name) (get (slots_of kind c).objects name) c
