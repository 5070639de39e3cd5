-- ===== src/Resources/Object.antt =====
-- internal/resources/object.go: a mirrored object as a custom resource. `T` is the object template
-- of its spec. The methods that read only the template are the record `Kind`, which each kind
-- supplies; the accessors K8sObject, GetCoreSpec and GetCoreStatus are the fields of `Object`.
use signoz_operator.Prelude.{String, Option, List, RawMessage}
use signoz_operator.Errors.{Result}
use signoz_operator.Kube.{ObjectMeta}
use signoz_operator.Core.{CoreSpec, CoreStatus, SigNozResource}

pub record CompareResult : Type 0 where
  pub updatable_fields : List String
  pub immutable_fields : List String

pub record Object (T : Type 0) : Type 0 where
  pub meta : ObjectMeta
  pub spec : CoreSpec
  pub template : T
  pub status : CoreStatus

-- An HTTP method and a path.
pub record Endpoint : Type 0 where
  pub method : String
  pub path : String

pub record Kind (T : Type 0) : Type 0 where
  pub identity : T → Result String
  pub body : T → Result RawMessage
  pub hash : T → Result String
  pub to_signoz_resource : RawMessage → Result SigNozResource
  pub to_update : T → Result RawMessage
  pub updatable_fields : List String
  pub immutable_fields : List String
  pub compare : T → RawMessage → Result CompareResult
  pub create_method_and_path : Endpoint
  pub update_method_and_path : Option SigNozResource → Endpoint
  pub read_method_and_path : Option SigNozResource → Endpoint
  pub delete_method_and_path : Option SigNozResource → Endpoint
