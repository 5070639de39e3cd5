-- ===== src/Reconciler/Invariant/Calls.antt =====
-- Two invariants of the calls of a pass: every create is marked before it, and every call runs
-- under the timeout of the object, but the status write.
use signoz_operator.Prelude.{◌≡◌, refl, List, [], ◌∷◌}
use signoz_operator.Reconciler.Pass.{
  Context, Event, updated, patched, status_updated, resolved, found, created, read, remote_updated,
  remote_deleted, CommonReconciler, Pass,
}
use signoz_operator.Reconciler.Calls.{
  client_update, client_patch, client_update_status, adapter_find, adapter_create, adapter_read,
  adapter_update, adapter_delete, signoz_client_for,
}
use signoz_operator.Reconciler.Reconcile.{reconcile_object, without_cancel}
use signoz_operator.Reconciler.Invariant.{JustMarked, IsKept, IsFinalKept}
use signoz_operator.Reconciler.Invariant.Whole.{bounded, reconcile_object-Kept}

module _ {T : Type 0} where
  -- Every create comes right after a patch that sets the create-attempt annotation and that the API
  -- server accepted.
  abbrev pub IsMarked : List (Event T) → Type 0
  IsMarked [] = Unit {0}
  IsMarked (created ctx c obj answer ∷ before) = JustMarked before × IsMarked before
  IsMarked (_ ∷ before) = IsMarked before

  -- The context that a call ran under.
  abbrev pub context_of : Event T → Context
  context_of (updated ctx obj answer) = ctx
  context_of (patched ctx before after answer) = ctx
  context_of (status_updated ctx obj answer) = ctx
  context_of (resolved ctx ref namespace operator_namespace answer) = ctx
  context_of (found ctx c obj answer) = ctx
  context_of (created ctx c obj answer) = ctx
  context_of (read ctx c obj r answer) = ctx
  context_of (remote_updated ctx c obj r answer) = ctx
  context_of (remote_deleted ctx c obj r answer) = ctx

  -- The status writes ran under the first context, all other calls under the second.
  abbrev pub IsTimed : Context → Context → List (Event T) → Type 0
  IsTimed free timed [] = Unit {0}
  IsTimed free timed (status_updated ctx obj answer ∷ before) =
      (ctx ≡ free) × IsTimed free timed before
  IsTimed free timed (e ∷ before) = (context_of e ≡ timed) × IsTimed free timed before

module _ {T : Type 0} (rec : CommonReconciler T) (ctx : Context) where
  IsMarked-IsKept : IsKept rec ctx (λ s. IsMarked s.calls)
  unfolding client_patch signoz_client_for adapter_find adapter_create adapter_read adapter_update
  IsMarked-IsKept = record {
    status = λ s status h. h;
    patch = λ before after s h. h;
    resolve = λ s h. h;
    find = λ c s h. h;
    read = λ c r s h. h;
    update = λ c r s h. h;
    create = λ c s h m. (m, h);
  }

  IsMarked-IsFinalKept : IsFinalKept rec ctx (λ s. IsMarked s.calls)
  unfolding client_update signoz_client_for adapter_find adapter_delete
  IsMarked-IsFinalKept = record {
    write = λ obj s h. h;
    resolve = λ s h. h;
    find = λ c s h. h;
    delete = λ c r s h. h;
  }

  module _ (free : Context) where
    IsTimed-IsKept : IsKept rec ctx (λ s. IsTimed free ctx s.calls)
    unfolding client_patch signoz_client_for adapter_find adapter_create adapter_read adapter_update
    IsTimed-IsKept = record {
      status = λ s status h. h;
      patch = λ before after s h. (refl, h);
      resolve = λ s h. (refl, h);
      find = λ c s h. (refl, h);
      read = λ c r s h. (refl, h);
      update = λ c r s h. (refl, h);
      create = λ c s h m. (refl, h);
    }

    IsTimed-IsFinalKept : IsFinalKept rec ctx (λ s. IsTimed free ctx s.calls)
    unfolding client_update signoz_client_for adapter_find adapter_delete
    IsTimed-IsFinalKept = record {
      write = λ obj s h. (refl, h);
      resolve = λ s h. (refl, h);
      find = λ c s h. (refl, h);
      delete = λ c r s h. (refl, h);
    }

module _ {T : Type 0} (rec : CommonReconciler T) (ctx : Context) (s : Pass T) where
  -- If every create so far was marked, so is every create after a pass: it comes right after a
  -- patch that set the create-attempt annotation and that the API server accepted.
  pub reconcile_object-IsMarked : IsMarked s.calls → IsMarked (reconcile_object rec ctx s).1.calls
  unfolding client_update_status
  reconcile_object-IsMarked =
      reconcile_object-Kept rec ctx {P = λ t. IsMarked t.calls} s (IsMarked-IsKept rec _)
        (IsMarked-IsFinalKept rec _) (λ t h. h)

  -- Every call of a pass that starts with no call runs under the context with the object's timeout,
  -- but the status write, which runs without any: a timeout does not stop the outcome from being
  -- recorded.
  pub reconcile_object-IsTimed :
      s.calls ≡ []
      → IsTimed (without_cancel ctx) (bounded rec ctx s.obj) (reconcile_object rec ctx s).1.calls
  unfolding client_update_status
  reconcile_object-IsTimed fresh =
      reconcile_object-Kept rec ctx
        {P = λ t. IsTimed (without_cancel ctx) (bounded rec ctx s.obj) t.calls} s
        (IsTimed-IsKept rec _ _) (IsTimed-IsFinalKept rec _ _) (λ t h. (refl, h)) (rw fresh tt)
