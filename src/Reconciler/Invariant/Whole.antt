-- ===== src/Reconciler/Invariant/Whole.antt =====
-- The pass as a whole: finalization, the finalizer, the status write and the timeout.
use signoz_operator.Prelude.{
  String, str_eq, Bool, true, false, Option, none, some, List, [], ◌∷◌, if◌then◌else◌, is_positive,
  not,
}
use signoz_operator.Errors.{Error, Result, ok, err}
use signoz_operator.Kube.{is_zero_time}
use signoz_operator.Core.{
  SigNozResource, reclaim_orphan, resource_finalizer, get_id_from_signoz_resource,
}
use signoz_operator.Clients.{Client}
use signoz_operator.Resources.Object.{Object}
use signoz_operator.Reconciler.Pass.{Context, Return, CommonReconciler, Pass}
use signoz_operator.Reconciler.Calls.{remove_finalizer, add_finalizer, timeout}
use signoz_operator.Reconciler.Finalize
use signoz_operator.Reconciler.Reconcile
use signoz_operator.Reconciler.Reconcile.{with_timeout, without_cancel}
use signoz_operator.Reconciler.Invariant.{IsKept, IsFinalKept, IsStatusKept}
use signoz_operator.Reconciler.Invariant.Kept.{reconcile-Kept}

-- The context of a pass over this object.
abbrev pub bounded : {T : Type 0} → CommonReconciler T → Context → Object T → Context
bounded rec ctx obj =
    if is_positive (timeout rec obj) then with_timeout ctx (timeout rec obj) else ctx

if-Kept :
    {T A : Type 0} (P : Pass T → Type 0) (b : Bool) (p q : A × Pass T)
    → P p.1
    → P q.1
    → P (if b then p else q).1
if-Kept P true p q hp hq = hp
if-Kept P false p q hp hq = hq

module _ {T : Type 0} (rec : CommonReconciler T) (ctx : Context) {P : Pass T → Type 0}
    (kept : IsFinalKept rec ctx P) where
  remove_finalizer-Kept : (s : Pass T) → P s → P (remove_finalizer rec ctx s).1
  unfolding remove_finalizer
  remove_finalizer-Kept s h = if-Kept P _ _ _ (kept.write _ s h) h

  reclaim-Kept :
      (c : Client) (r : Option SigNozResource) (s : Pass T)
      → P s
      → P (Finalize.reclaim rec ctx c r s).1
  unfolding Finalize.reclaim Finalize.retry
  reclaim-Kept c r s h =
      if-Kept P _ _ _ (kept.delete c r s h) (remove_finalizer-Kept _ (kept.delete c r s h))

  after_find-Kept :
      (c : Client) (x : Result (List (Option SigNozResource))) (s : Pass T)
      → P s
      → P (Finalize.after_find rec ctx c x s).1
  unfolding Finalize.after_find Finalize.retry
  after_find-Kept c (err e) s h = h
  after_find-Kept c (ok []) s h = remove_finalizer-Kept s h
  after_find-Kept c (ok (r ∷ [])) s h = reclaim-Kept c r s h
  after_find-Kept c (ok (r ∷ q ∷ rs)) s h = h

  after_identity-Kept :
      (c : Client) (identity : Result String) (s : Pass T)
      → P s
      → P (Finalize.after_identity rec ctx c identity s).1
  unfolding Finalize.after_identity
  after_identity-Kept c (err e) s h = remove_finalizer-Kept s h
  after_identity-Kept c (ok identity) s h = after_find-Kept c _ _ (kept.find c s h)

  after_client-Kept :
      (has_id : Bool) (r : Option SigNozResource) (c : Result Client) (s : Pass T)
      → P s
      → P (Finalize.after_client rec ctx has_id r c s).1
  unfolding Finalize.after_client Finalize.retry
  after_client-Kept has_id r (err e) s h = h
  after_client-Kept has_id r (ok c) s h =
      if-Kept P has_id _ _ (reclaim-Kept c r s h) (after_identity-Kept c _ s h)

  pub finalize-Kept : (s : Pass T) → P s → P (Finalize.finalize rec ctx s).1
  unfolding Finalize.finalize Finalize.finalize_bound
  finalize-Kept s h =
      if-Kept P (not (rec.kube.contains_finalizer s.obj.meta.finalizers resource_finalizer)) _ _ h (
        if-Kept P (str_eq s.obj.spec.reclaim_policy reclaim_orphan) _ _ (remove_finalizer-Kept s h)
          (if-Kept P (Finalize.is_unbound s.obj) _ _ (remove_finalizer-Kept s h) (
            after_client-Kept
              (Finalize.is_ok (get_id_from_signoz_resource s.obj.status.signoz_resource)) _ _ _
              (kept.resolve s h))))

module _ {T : Type 0} (rec : CommonReconciler T) (ctx : Context) {P : Pass T → Type 0}
    (kept : IsKept rec ctx P) (final : IsFinalKept rec ctx P)
    (written : IsStatusKept rec (without_cancel ctx) P) where
  write_if_changed-Kept :
      {Q : Type 0} (d : Dec Q) (r : Return) (s : Pass T)
      → P s
      → P (Reconcile.write_if_changed rec ctx d r s).1
  unfolding Reconcile.write_if_changed Reconcile.write_status
  write_if_changed-Kept (yes same) r s h = h
  write_if_changed-Kept (no changed) r s h = written _ (kept.status s _ h)

  add_finalizer-Kept : (s : Pass T) → P s → P (add_finalizer rec ctx s).1
  unfolding add_finalizer
  add_finalizer-Kept s h = if-Kept P _ _ _ (final.write _ s h) h

  after_finalizer-Kept :
      (failure : Option Error) (s : Pass T)
      → P s
      → P (Reconcile.after_finalizer rec ctx failure s).1
  unfolding Reconcile.after_finalizer Reconcile.record_status
  after_finalizer-Kept (some e) s h = h
  after_finalizer-Kept none s h = write_if_changed-Kept _ _ _ (reconcile-Kept rec ctx kept s h)

  pub pass_of-Kept : (s : Pass T) → P s → P (Reconcile.pass_of rec ctx s).1
  unfolding Reconcile.pass_of
  pass_of-Kept s h =
      if-Kept P (not (is_zero_time s.obj.meta.deletion_timestamp)) _ _
        (finalize-Kept rec ctx final s h) (after_finalizer-Kept _ _ (add_finalizer-Kept s h))

-- An invariant of every call of the pass over this object is one of the pass.
pub reconcile_object-Kept :
    {T : Type 0} (rec : CommonReconciler T) (ctx : Context) {P : Pass T → Type 0} (s : Pass T)
    → IsKept rec (bounded rec ctx s.obj) P
    → IsFinalKept rec (bounded rec ctx s.obj) P
    → IsStatusKept rec (without_cancel ctx) P
    → P s
    → P (Reconcile.reconcile_object rec ctx s).1
unfolding Reconcile.reconcile_object
reconcile_object-Kept rec ctx s kept final written h = pass_of-Kept rec _ kept final written s h
