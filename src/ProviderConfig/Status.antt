-- ===== src/ProviderConfig/Status.antt =====
-- internal/providerconfig/condition.go and reconcilers/common_reconciler.go: the status of a
-- provider config, and the pass that writes it. The pass reads the references through the resolver
-- of Resolver; log lines are left out.
pub mod Ready
use signoz_operator.Prelude.{
  ℕ, String, Bool, not, Option, none, some, List, [], ◌∷◌, Dict, str_eq, concat, if◌then◌else◌,
}
use signoz_operator.Errors.{
  Error, Base, Result, ok, err, as_base, error_text, code_unknown, wrapped,
}
use signoz_operator.Kube.{Condition, ConditionStatus, condition_true, condition_false, Kube}
use signoz_operator.ProviderConfig.Spec.{ProviderConfigSpec}
use signoz_operator.ProviderConfig.Resolved.{ResolvedProviderConfigSpec}
use signoz_operator.ProviderConfig.Cache.{Reader, Cache, code_reference_read_failed}
use signoz_operator.ProviderConfig.Resolver.{resolve}

-- The versions observed of each kind; a kind that is missing has none.
pub record ObservedRefVersions : Type 0 where
  pub secrets : Option (Dict String)
  pub config_maps : Option (Dict String)

pub record ProviderConfigStatus : Type 0 where
  pub conditions : List Condition
  pub observed_generation : ℕ
  pub observed_ref_versions : ObservedRefVersions

abbrev pub condition_ready : String
condition_ready = "Ready"

-- The collaborators: the helpers of the API machinery with apiequality's DeepEqual, the text of an
-- object key, the clock, and Status().Update, which answers an error or the status as it then
-- stands, which the client reads back into memory.
pub record StatusWriter : Type 0 where
  pub kube : Kube
  pub deep_equal : ProviderConfigStatus → ProviderConfigStatus → Bool
  pub key_string : String → String → String
  pub now : ℕ
  pub update : ProviderConfigStatus → Result ProviderConfigStatus

-- A call of Status().Update, with its answer.
pub record Write : Type 0 where
  pub written : ProviderConfigStatus
  pub answer : Result ProviderConfigStatus

unfoldable pub condition_reason : Base → String
condition_reason failure =
    if not (str_eq failure.code code_unknown) then failure.code else code_reference_read_failed

-- Is the error one of the operator's own, or another?
unfoldable pub ready_of_failure : ℕ → Error → Option Base → Condition
ready_of_failure generation e (some failure) = record {
  type = condition_ready;
  status = condition_false;
  reason = condition_reason failure;
  message = failure.message;
  observed_generation = generation;
  last_transition_time = 0;
}
ready_of_failure generation e none = record {
  type = condition_ready;
  status = condition_false;
  reason = code_reference_read_failed;
  message = error_text e;
  observed_generation = generation;
  last_transition_time = 0;
}

unfoldable pub ready_of : {A : Type 0} → ℕ → Result A → Condition
ready_of generation (ok a) = record {
  type = condition_ready;
  status = condition_true;
  reason = "Resolved";
  message = "Endpoint and credential resolved";
  observed_generation = generation;
  last_transition_time = 0;
}
ready_of generation (err e) = ready_of_failure generation e (as_base e)

module _ (w : StatusWriter) where
  unfoldable pub keyed : String → Dict String → Dict String
  keyed namespace [] = []
  keyed namespace ((name, version) ∷ rest) =
      (w.key_string namespace name, version) ∷ keyed namespace rest

  unfoldable pub observed : String → Dict String → Option (Dict String)
  observed namespace [] = none
  observed namespace (v ∷ versions) = some (keyed namespace (v ∷ versions))

  unfoldable pub set_conditions :
      {A : Type 0} → ℕ → Cache → Result A → ProviderConfigStatus → ProviderConfigStatus
  set_conditions generation c r status = record {
    conditions = w.kube.set_status_condition w.now status.conditions (ready_of generation r);
    observed_generation = generation;
    observed_ref_versions = record {
      secrets = observed c.namespace c.secrets.versions;
      config_maps = observed c.namespace c.config_maps.versions;
    };
  }

  -- The failure to resolve is the pass's error.
  unfoldable pub returned : {A : Type 0} → Result A → Option Error
  returned (ok a) = none
  returned (err e) = some e

  -- After the write of the status, or its failure, which is then the pass's error.
  unfoldable pub after_write :
      {A : Type 0}
      → Result A
      → ProviderConfigStatus
      → Result ProviderConfigStatus
      → Option Error × ProviderConfigStatus
  after_write r status (err e) =
      (some (wrapped (concat ("could not update status: " ∷ error_text e ∷ [])) e), status)
  after_write r status (ok stored) = (returned r, stored)

  -- Reconcile: the error that it returns and the status in memory, with what it wrote.
  unfoldable pub reconcile :
      Reader
      → ℕ
      → ProviderConfigSpec
      → String
      → ProviderConfigStatus
      → Option Error × ProviderConfigStatus × List Write
  reconcile reader generation spec namespace status =
      let (r, c) = resolve reader namespace spec in
      let status' = set_conditions generation c r status in
      let (e, stored) = after_write r status' (w.update status') in
      if not (w.deep_equal status status')
      then (e, stored, record { written = status'; answer = w.update status' } ∷ [])
      else (returned r, status', [])
