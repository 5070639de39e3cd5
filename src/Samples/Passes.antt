-- ===== src/Samples/Passes.antt =====
-- A reconciler over templates that are their own body, with an API server that accepts every write
-- and a SigNoz that holds nothing but what it is asked to create, and objects for it.
use signoz_operator.Prelude.{
  String, false, none, some, [], ◌∷◌, ℤ, str_eq, if◌then◌else◌, Formatting,
}
use signoz_operator.Errors.{ok}
use signoz_operator.Core.{CoreSpec, CoreStatus, reclaim_delete, resource_finalizer}
use signoz_operator.Resources.Object.{Object, Kind}
use signoz_operator.Reconciler.Pass.{Context, CommonReconciler, Pass, new_common_reconciler}
use signoz_operator.Samples.Helpers.{helpers}

abbrev pub formatting : Formatting
formatting = record {
  decimal = λ n. "n";
  quote = λ s. s;
  rfc3339 = λ t. "2026-01-01T00:00:00Z";
  compact = λ body. some body;
}

abbrev pub kind : Kind String
kind = record {
  identity = λ t. ok t;
  body = λ t. ok t;
  hash = λ t. ok t;
  to_signoz_resource = λ response. ok (record { id = some response });
  to_update = λ t. ok t;
  updatable_fields = "name" ∷ [];
  immutable_fields = [];
  compare = λ t remote. ok (record {
    updatable_fields = if str_eq t remote then [] else "name" ∷ [];
    immutable_fields = [];
  });
  create_method_and_path = record { method = "POST"; path = "/api/v1/roles" };
  update_method_and_path = λ r. record { method = "PUT"; path = "/api/v1/roles/7" };
  read_method_and_path = λ r. record { method = "GET"; path = "/api/v1/roles/7" };
  delete_method_and_path = λ r. record { method = "DELETE"; path = "/api/v1/roles/7" };
}

-- Over any kind of objects: every read answers the same text.
abbrev pub reconciler_of : {T : Type 0} → Kind T → CommonReconciler T
reconciler_of kind =
    new_common_reconciler
      (record {
        update = λ calls ctx obj. ok obj;
        patch = λ calls ctx before after. ok after;
        update_status = λ calls ctx obj. ok obj;
      })
      (record {
        resolve_ref = λ calls ctx ref namespace operator_namespace. ok (record {
          endpoint = record { scheme = "https"; host = "signoz"; text = "https://signoz" };
          auth = none;
          tls = none;
        });
      })
      (record {
        find = λ calls ctx c obj. ok [];
        create = λ calls ctx c obj. ok (some (record { id = some "7" }));
        read = λ calls ctx c obj r. ok "viewer";
        update = λ calls ctx c obj r. none;
        delete = λ calls ctx c obj r. none;
      })
      (ℤ.pos 300) (ℤ.pos 60) (ℤ.pos 30) "signoz-operator-system" (λ calls. 5) kind helpers
      formatting

abbrev pub reconciler : CommonReconciler String
reconciler = reconciler_of kind

abbrev pub spec : CoreSpec
spec = record {
  provider_config_ref = record { name = "prod"; kind = "" };
  interval = none;
  retry_interval = none;
  timeout = none;
  suspend = false;
  reclaim_policy = reclaim_delete;
}

abbrev pub empty_status : CoreStatus
empty_status = record {
  conditions = [];
  signoz_resource = none;
  observed_generation = 0;
  observed_hash = "";
  reconciled_at = 0;
}

-- A role that no pass has seen yet.
abbrev pub role_of : {T : Type 0} → T → Object T
role_of template = record {
  meta = record {
    name = "viewer";
    namespace = "team";
    generation = 1;
    deletion_timestamp = none;
    finalizers = [];
    annotations = [];
  };
  spec = spec;
  template = template;
  status = empty_status;
}

abbrev pub viewer : Object String
viewer = role_of "viewer"

abbrev pub background : Context
background = record { timeouts = [] }

abbrev pub fresh : Pass String
fresh = record { obj = viewer; calls = [] }

-- The role under deletion, with the id that its create recorded.
abbrev pub leaving : Pass String
leaving = record {
  obj = record {
    meta = record {
      name = "viewer";
      namespace = "team";
      generation = 2;
      deletion_timestamp = some 9;
      finalizers = resource_finalizer ∷ [];
      annotations = [];
    };
    spec = spec;
    template = "viewer";
    status = record {
      conditions = [];
      signoz_resource = some (record { id = some "7" });
      observed_generation = 1;
      observed_hash = "viewer";
      reconciled_at = 5;
    };
  };
  calls = [];
}
