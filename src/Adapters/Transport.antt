-- ===== src/Adapters/Transport.antt =====
-- internal/resources/adapters/common_transport.go: commonTransport, over the object's operations.
use signoz_operator.Prelude.{Option, none, some, RawMessage, str_eq, if◌then◌else◌}
use signoz_operator.Errors.{Error, Result, ok, err}
use signoz_operator.Core.{SigNozResource}
use signoz_operator.Resources.Object.{Endpoint, Kind}
use signoz_operator.Adapters.Exchange.{Request, SigNoz, Talk, exchange}

abbrev pub request_to : Endpoint → RawMessage → Request
request_to e body = record { method = e.method; path = e.path; body = body }

abbrev pub failure : {A : Type 0} → Result A → Option Error
failure (ok a) = none
failure (err e) = some e

module _ {J T : Type 0} (c : SigNoz J) (kind : Kind T) where
  unfoldable pub created : Result RawMessage → Result (Option SigNozResource)
  created (err e) = err e
  created (ok result) = point (kind.to_signoz_resource result)
    where
      point : Result SigNozResource → Result (Option SigNozResource)
      point (ok r) = ok (some r)
      point (err e) = err e

  unfoldable pub create_body : Result RawMessage → Talk (Result (Option SigNozResource))
  create_body (err e) h = (err e, h)
  create_body (ok body) h =
      let (result, h') = exchange c (request_to kind.create_method_and_path body) h in
      (created result, h')

  unfoldable pub create : T → Talk (Result (Option SigNozResource))
  create t = create_body (kind.body t)

  unfoldable pub read : Option SigNozResource → Talk (Result RawMessage)
  read r = exchange c (request_to (kind.read_method_and_path r) "")

  -- A payload that is nil sends nothing.
  unfoldable pub update_with : Option SigNozResource → Result RawMessage → Talk (Option Error)
  update_with r (err e) h = (some e, h)
  update_with r (ok payload) h =
      let (result, h') = exchange c (request_to (kind.update_method_and_path r) payload) h in
      if str_eq payload "" then (none, h) else (failure result, h')

  unfoldable pub update : T → Option SigNozResource → Talk (Option Error)
  update t r = update_with r (kind.to_update t)

  unfoldable pub delete : Option SigNozResource → Talk (Option Error)
  delete r h =
      let (result, h') = exchange c (request_to (kind.delete_method_and_path r) "") h in
      (failure result, h')
