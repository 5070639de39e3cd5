-- ===== src/Reconciler/Finalize.antt =====
-- finalize and reclaim of commonReconciler.
use signoz_operator.Prelude.{
  String, Bool, true, false, Option, none, some, List, [], ◌∷◌, if◌then◌else◌, get, not, ◌&&◌,
  str_eq,
}
use signoz_operator.Errors.{Error, Result, ok, err, is_not_found}
use signoz_operator.Core.{
  SigNozResource, annotation_create_attempt, reclaim_orphan, resource_finalizer,
  get_id_from_signoz_resource,
}
use signoz_operator.Clients.{Client}
use signoz_operator.Resources.Object.{Object}
use signoz_operator.Reconciler.Pass.{
  Context, Return, CommonReconciler, Step, gets, ◌>>=◌, done, requeue,
}
use signoz_operator.Reconciler.Calls.{
  adapter_find, adapter_delete, remove_finalizer, signoz_client_for, retry_interval,
}

unfoldable pub is_set : {A : Type 0} → Option A → Bool
is_set none = false
is_set (some a) = true

unfoldable pub is_ok : {A : Type 0} → Result A → Bool
is_ok (ok a) = true
is_ok (err e) = false

-- Did the delete fail, other than on an object that is gone?
unfoldable pub is_delete_failure : Option Error → Bool
is_delete_failure none = false
is_delete_failure (some e) = not (is_not_found e)

-- Is no id recorded and no create or adoption pending?
unfoldable pub is_unbound : {T : Type 0} → Object T → Bool
is_unbound obj =
    not (is_ok (get_id_from_signoz_resource obj.status.signoz_resource))
    && not (is_set (get obj.meta.annotations annotation_create_attempt))

module _ {T : Type 0} (rec : CommonReconciler T) (ctx : Context) where
  unfoldable pub retry : Step T Return
  retry = gets (λ s. requeue (retry_interval rec s.obj))

  unfoldable pub reclaim : Client → Option SigNozResource → Step T Return
  reclaim c resource = do
    failure ← adapter_delete rec ctx c resource
    λ s. if is_delete_failure failure then retry s else remove_finalizer rec ctx s

  unfoldable pub after_find : Client → Result (List (Option SigNozResource)) → Step T Return
  after_find c (err e) = retry
  after_find c (ok []) = remove_finalizer rec ctx
  after_find c (ok (r ∷ [])) = reclaim c r
  after_find c (ok (r ∷ q ∷ rs)) = retry

  unfoldable pub after_identity : Client → Result String → Step T Return
  after_identity c (err e) = remove_finalizer rec ctx
  after_identity c (ok identity) = do candidates ← adapter_find rec ctx c; after_find c candidates

  unfoldable pub after_client : Bool → Option SigNozResource → Result Client → Step T Return
  after_client has_id resource (err e) = retry
  after_client has_id resource (ok c) = λ s.
      if has_id then reclaim c resource s else after_identity c (rec.kind.identity s.obj.template) s

  -- The object may be bound in SigNoz and its reclaim policy wants it deleted.
  unfoldable pub finalize_bound : Bool → Option SigNozResource → Step T Return
  finalize_bound has_id resource = do
    client ← signoz_client_for rec ctx
    after_client has_id resource client

  unfoldable pub finalize : Step T Return
  finalize s =
      let resource = s.obj.status.signoz_resource in
      if not (rec.kube.contains_finalizer s.obj.meta.finalizers resource_finalizer)
      then (done, s)
      else if str_eq s.obj.spec.reclaim_policy reclaim_orphan
      then remove_finalizer rec ctx s
      else if is_unbound s.obj
      then remove_finalizer rec ctx s
      else finalize_bound (is_ok (get_id_from_signoz_resource resource)) resource s
