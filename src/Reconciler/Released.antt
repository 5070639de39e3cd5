-- ===== src/Reconciler/Released.antt =====
-- When a deleted object loses its finalizer, and what is deleted in SigNoz.
use signoz_operator.Prelude.{
  String, ◌≡◌, refl, Bool, true, false, Option, none, some, List, get, ◌&&◌, arith, [], ◌∷◌,
  if◌then◌else◌, str_eq, eq_iff, not, ap, sym, ◌∙◌,
}
use signoz_operator.Errors.{Error, Result, ok, err, is_not_found}
use signoz_operator.Core.{
  SigNozResource, annotation_create_attempt, reclaim_orphan, resource_finalizer,
  get_id_from_signoz_resource,
}
use signoz_operator.Clients.{Client}
use signoz_operator.Resources.Object.{Object}
use signoz_operator.Reconciler.Pass.{
  Context, Return, Event, updated, found, remote_deleted, CommonReconciler, Pass,
}
use signoz_operator.Reconciler.Calls.{
  client_update, remove_finalizer, adapter_delete, adapter_find, signoz_client_for,
}
use signoz_operator.Reconciler.Finalize.{
  is_ok, is_set, is_delete_failure, is_unbound, retry, reclaim, after_find, after_identity,
  after_client, finalize_bound, finalize,
}

-- The remote object is gone: the delete succeeded, or met NotFound.
pub data IsGone : Option Error → Type 0 where
  deletes : IsGone none
  met_not_found : (e : Error) → is_not_found e ≡ true → IsGone (some e)

-- No id is recorded in the status, and no create or adoption is pending.
pub record IsFree {T : Type 0} (obj : Object T) : Type 0 where
  no_id : is_ok (get_id_from_signoz_resource obj.status.signoz_resource) ≡ false
  no_attempt : get obj.meta.annotations annotation_create_attempt ≡ none

is_delete_failure-IsGone :
    (failure : Option Error) → is_delete_failure failure ≡ false → IsGone failure
unfolding is_delete_failure
is_delete_failure-IsGone none h = deletes
is_delete_failure-IsGone (some e) h = met_not_found e (ground (arith, h))

is_set-none : {A : Type 0} (o : Option A) → is_set o ≡ false → o ≡ none
unfolding is_set
is_set-none none h = refl
is_set-none (some a) h = cc h

both_false : (a b : Bool) → (not a && not b) ≡ true → (a ≡ false) × (b ≡ false)
both_false false false h = (refl, refl)
both_false true b h = cc h
both_false false true h = cc h

is_unbound-IsFree : {T : Type 0} (obj : Object T) → is_unbound obj ≡ true → IsFree obj
unfolding is_unbound
is_unbound-IsFree obj h =
    let (no_id, unset) = both_false _ _ h in
    record { no_id = no_id; no_attempt = is_set-none _ unset }

module _ {T : Type 0} (rec : CommonReconciler T) (obj : Object T) where
  -- Why the finalizer of the object may go, given the calls made before.
  pub data Cleared : List (Event T) → Type 0 where
    orphaned : {calls : List (Event T)} → obj.spec.reclaim_policy ≡ reclaim_orphan → Cleared calls
    unbound : {calls : List (Event T)} → IsFree obj → Cleared calls
    unidentified :
        {calls : List (Event T)} (e : Error)
        → rec.kind.identity obj.template ≡ err e
        → Cleared calls
    deleted :
        (ctx : Context) (c : Client) (o : Object T) (r : Option SigNozResource)
        (failure : Option Error) (calls : List (Event T))
        → IsGone failure
        → Cleared (remote_deleted ctx c o r failure ∷ calls)
    absent :
        (ctx : Context) (c : Client) (o : Object T) (calls : List (Event T))
        → Cleared (found ctx c o (ok []) ∷ calls)

  -- Which remote object a delete may name: the recorded one, or the only one just found.
  pub data Targeted (r : Option SigNozResource) : List (Event T) → Type 0 where
    recorded :
        {calls : List (Event T)}
        → r ≡ obj.status.signoz_resource
        → is_ok (get_id_from_signoz_resource r) ≡ true
        → Targeted r calls
    only_match :
        (ctx : Context) (c : Client) (o : Object T) (calls : List (Event T))
        → Targeted r (found ctx c o (ok (r ∷ [])) ∷ calls)

  -- Every write of the object was cleared, and every delete was targeted, by what came before.
  abbrev pub IsReleased : List (Event T) → Type 0
  IsReleased [] = Unit {0}
  IsReleased (updated ctx o answer ∷ before) = Cleared before × IsReleased before
  IsReleased (remote_deleted ctx c o r failure ∷ before) = Targeted r before × IsReleased before
  IsReleased (_ ∷ before) = IsReleased before

module _ {T : Type 0} (rec : CommonReconciler T) (obj : Object T) (ctx : Context) where
  abbrev Fine : Pass T → Type 0
  Fine s = IsReleased rec obj s.calls

  if-Fine :
      (b : Bool) (p q : Return × Pass T)
      → (b ≡ true → Fine p.1)
      → (b ≡ false → Fine q.1)
      → Fine (if b then p else q).1
  if-Fine true p q hp hq = hp refl
  if-Fine false p q hp hq = hq refl

  client_update-Fine :
      (o : Object T) (s : Pass T)
      → Cleared rec obj s.calls
      → Fine s
      → Fine (client_update rec ctx o s).1
  unfolding client_update
  client_update-Fine o s why h = (why, h)

  remove_finalizer-Fine :
      (s : Pass T) → Cleared rec obj s.calls → Fine s → Fine (remove_finalizer rec ctx s).1
  unfolding remove_finalizer
  remove_finalizer-Fine s why h =
      if-Fine (rec.kube.remove_finalizer s.obj.meta.finalizers resource_finalizer).1 _ _
        (λ _. client_update-Fine _ s why h) (λ _. h)

  reclaim-Fine :
      (c : Client) (r : Option SigNozResource) (s : Pass T)
      → Targeted rec obj r s.calls
      → Fine s
      → Fine (reclaim rec ctx c r s).1
  unfolding reclaim retry adapter_delete
  reclaim-Fine c r s target h =
      if-Fine (is_delete_failure (rec.adapter.delete s.calls ctx c s.obj r)) _ _ (λ _. (target, h))
        (λ gone.
          remove_finalizer-Fine _
            (deleted ctx c s.obj r _ s.calls (is_delete_failure-IsGone _ gone)) (target, h))

  after_find-Fine :
      (c : Client) (o : Object T) (x : Result (List (Option SigNozResource))) (s : Pass T)
      (calls : List (Event T))
      → s.calls ≡ found ctx c o x ∷ calls
      → Fine s
      → Fine (after_find rec ctx c x s).1
  unfolding after_find retry
  after_find-Fine c o (err e) s calls last h = h
  after_find-Fine c o (ok []) s calls last h =
      remove_finalizer-Fine s (rw last (absent ctx c o calls)) h
  after_find-Fine c o (ok (r ∷ [])) s calls last h =
      reclaim-Fine c r s (rw last (only_match ctx c o calls)) h
  after_find-Fine c o (ok (r ∷ q ∷ rs)) s calls last h = h

  after_identity-Fine :
      (c : Client) (identity : Result String) (s : Pass T)
      → rec.kind.identity obj.template ≡ identity
      → Fine s
      → Fine (after_identity rec ctx c identity s).1
  unfolding after_identity adapter_find
  after_identity-Fine c (err e) s same h = remove_finalizer-Fine s (unidentified e same) h
  after_identity-Fine c (ok identity) s same h = after_find-Fine c s.obj _ _ s.calls refl h

  after_client-Fine :
      (has_id : Bool) (c : Result Client) (s : Pass T)
      → s.obj ≡ obj
      → is_ok (get_id_from_signoz_resource obj.status.signoz_resource) ≡ has_id
      → Fine s
      → Fine (after_client rec ctx has_id obj.status.signoz_resource c s).1
  unfolding after_client retry
  after_client-Fine has_id (err e) s same id h = h
  after_client-Fine has_id (ok c) s same id h =
      if-Fine has_id _ _ (λ with_id. reclaim-Fine c _ s (recorded refl (id ∙ with_id)) h)
        (λ _. after_identity-Fine c _ s (ap (λ o. rec.kind.identity o.template) (sym same)) h)

-- Over an object whose writes and deletes so far were justified, the finalization makes only
-- justified ones. It writes the object, to drop its finalizer, only if the reclaim policy is Orphan,
-- if neither an id nor a create attempt is recorded, if no identity can be derived, or right after a
-- delete that succeeded or met NotFound, or a lookup that found nothing: never after a failed or
-- ambiguous lookup. It deletes only the recorded object, or the only one that the lookup matched.
pub finalize-IsReleased :
    {T : Type 0} (rec : CommonReconciler T) (ctx : Context) (s : Pass T)
    → IsReleased rec s.obj s.calls
    → IsReleased rec s.obj (finalize rec ctx s).1.calls
unfolding finalize finalize_bound signoz_client_for
finalize-IsReleased rec ctx s h =
    if-Fine rec s.obj ctx
      (not (rec.kube.contains_finalizer s.obj.meta.finalizers resource_finalizer)) _ _ (λ _. h)
      (λ _.
        if-Fine rec s.obj ctx (str_eq s.obj.spec.reclaim_policy reclaim_orphan) _ _
          (λ orphan. remove_finalizer-Fine rec s.obj ctx s (orphaned ((eq_iff _ _).0 orphan)) h)
          (λ _.
            if-Fine rec s.obj ctx (is_unbound s.obj) _ _
              (λ free.
                remove_finalizer-Fine rec s.obj ctx s (unbound (is_unbound-IsFree s.obj free)) h)
              (λ _.
                after_client-Fine rec s.obj ctx
                  (is_ok (get_id_from_signoz_resource s.obj.status.signoz_resource)) _ _ refl refl
                  h)))
