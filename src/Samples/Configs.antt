-- ===== src/Samples/Configs.antt =====
-- A provider config whose endpoint and credential are references, and a reader that has them.
use signoz_operator.Prelude.{String, true, false, none, some, [], ◌∷◌, List, Dict}
use signoz_operator.Errors.{ok, err, foreign}
use signoz_operator.ProviderConfig.Spec.{ProviderConfigSpec}
use signoz_operator.ProviderConfig.Resolved.{ResolvedProviderConfigSpec}
use signoz_operator.ProviderConfig.Cache.{RefKind, secret_kind, config_map_kind, Referent, Reader}
use signoz_operator.ProviderConfig.Refs.{Configs}
use signoz_operator.ProviderConfig.Status.{StatusWriter, ProviderConfigStatus}
use signoz_operator.Samples.Helpers.{helpers}
use signoz_operator.Samples.Passes.{formatting}

abbrev holdings : RefKind → Referent
holdings secret_kind = record { resource_version = "12"; contents = ("key", "s3cret") ∷ [] }
holdings config_map_kind = record {
  resource_version = "13";
  contents = ("url", "https://signoz") ∷ [];
}

abbrev names : Dict (Unit {0}) → List String
names [] = []
names ((name, _) ∷ rest) = name ∷ names rest

abbrev pub reader : Reader
reader = record {
  read = λ reads kind namespace name. ok (holdings kind);
  is_api_not_found = λ e. false;
  parse_url = λ raw. some (record { scheme = "https"; host = "signoz"; text = raw });
  trim_space = λ s. s;
  holds_certificate = λ pem. true;
  range = names;
  formatting = formatting;
}

abbrev pub prod : ProviderConfigSpec
prod = record {
  endpoint = record {
    value = "";
    value_from = some (record {
      secret_key_ref = none;
      config_map_key_ref = some (record { name = "urls"; key = "url" });
    });
  };
  auth = some (record {
    name = "";
    scheme = "";
    value = "";
    value_from = some (record {
      secret_key_ref = some (record { name = "keys"; key = "key" });
      config_map_key_ref = none;
    });
  });
  tls = none;
}

abbrev pub resolved : ResolvedProviderConfigSpec
resolved = record {
  endpoint = record { scheme = "https"; host = "signoz"; text = "https://signoz" };
  auth = some (record { name = "SIGNOZ-API-KEY"; scheme = ""; value = "s3cret" });
  tls = none;
}

abbrev pub configs : Configs
configs = record {
  provider_config = λ namespace name. ok prod;
  cluster_provider_config = λ name. ok prod;
}

-- The same but for the cluster-wide configs, which are gone.
abbrev pub other_configs : Configs
other_configs = record {
  provider_config = λ namespace name. ok prod;
  cluster_provider_config = λ name. err (foreign "not found");
}

abbrev pub writer : StatusWriter
writer = record {
  kube = helpers;
  deep_equal = λ s t. false;
  key_string = λ namespace name. namespace;
  now = 5;
  update = λ status. ok status;
}

abbrev pub empty_provider_status : ProviderConfigStatus
empty_provider_status = record {
  conditions = [];
  observed_generation = 0;
  observed_ref_versions = record { secrets = none; config_maps = none };
}
