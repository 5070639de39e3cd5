-- ===== src/Resources/Reason.antt =====
-- internal/resources/reason.go and the outcomes of internal/resources/reconciler.go. The structs
-- around one unexported text are enumerations with their String method.
use signoz_operator.Prelude.{String}

pub data Reason : Type 0 where
  synced pending created updated invalid_spec rejected ambiguous : Reason
  signoz_resource_id_mismatch immutable_field_changed unauthorized : Reason
  provider_config_not_ready backend_error backend_unreachable suspended compare_failed : Reason

unfoldable pub reason_string : Reason → String
reason_string synced = "Synced"
reason_string pending = "Pending"
reason_string created = "Created"
reason_string updated = "Updated"
reason_string invalid_spec = "InvalidSpec"
reason_string rejected = "Rejected"
reason_string ambiguous = "Ambiguous"
reason_string signoz_resource_id_mismatch = "SigNozResourceIDMismatch"
reason_string immutable_field_changed = "ImmutableFieldChanged"
reason_string unauthorized = "Unauthorized"
reason_string provider_config_not_ready = "ProviderConfigNotReady"
reason_string backend_error = "BackendError"
reason_string backend_unreachable = "BackendUnreachable"
reason_string suspended = "Suspended"
reason_string compare_failed = "CompareFailed"

pub data ReconcilerOutcome : Type 0 where
  outcome_synced outcome_pending outcome_recoverable : ReconcilerOutcome
  outcome_terminal outcome_suspended : ReconcilerOutcome
