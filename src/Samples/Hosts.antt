-- ===== src/Samples/Hosts.antt =====
-- A host, the configuration of an operator that watches one namespace, its flags, and a manager that
-- takes every controller.
use signoz_operator.Prelude.{true, false, none, some, List, [], ◌∷◌, str_eq, if◌then◌else◌}
use signoz_operator.Errors.{Result, ok}
use signoz_operator.Command.Config.{Config, Host, registered}
use signoz_operator.Command.Flags.{Flag, Environment}
use signoz_operator.Command.Run.{Options, Runtime}

abbrev pub host : Host
host = record { trim_space = λ s. s; quote = λ s. s; parse_level = λ level. none }

abbrev pub deployed : Config
deployed = record registered {
  watch_namespaces = "team" ∷ [];
  operator_namespace = "signoz-operator-system";
}

abbrev pub runtime : Runtime
runtime = record {
  manager = record { index_field = λ kind index. none; complete = λ registration. none };
  healthz = none;
  readyz = none;
  start = none;
}

abbrev pub new_manager : Options → Result Runtime
new_manager options = ok runtime

-- The variable of the operator's namespace is set.
abbrev pub environment : Environment
environment = record {
  value_of =
      λ name. if str_eq name "operator-namespace" then some "signoz-operator-system" else none;
  refusal = λ name value. none;
  variable = λ name. "SIGNOZ_OPERATOR_OPERATOR_NAMESPACE";
}

abbrev pub flags : List Flag
flags =
    record { name = "log-level"; value = "debug"; changed = true }
    ∷ record { name = "operator-namespace"; value = ""; changed = false }
    ∷ []
