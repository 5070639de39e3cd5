-- ===== src/Reconciler/Invariant.antt =====
-- Invariants of a pass: what its calls may assume and must keep.
pub mod Kept
pub mod Marks
pub mod Whole
pub mod Calls
use signoz_operator.Prelude.{String, ◌≡◌, some, Option, List, ◌∷◌, get}
use signoz_operator.Errors.{ok}
use signoz_operator.Core.{CoreStatus, SigNozResource, annotation_create_attempt}
use signoz_operator.Clients.{Client}
use signoz_operator.Resources.Object.{Object}
use signoz_operator.Reconciler.Pass.{Context, Event, patched, CommonReconciler, Pass}
use signoz_operator.Reconciler.Calls.{
  with_status, client_update, client_patch, client_update_status, adapter_find, adapter_create,
  adapter_read, adapter_update, adapter_delete, signoz_client_for,
}

-- The last call is a patch that sets the create-attempt annotation and that the API server accepted.
pub data JustMarked {T : Type 0} : List (Event T) → Type 0 where
  just_marked :
      (ctx : Context) (before after obj : Object T) (calls : List (Event T)) (at : String)
      → get after.meta.annotations annotation_create_attempt ≡ some at
      → JustMarked (patched ctx before after (ok obj) ∷ calls)

-- `P` survives each call of a pass, and a create that comes right after an accepted mark.
pub record IsKept {T : Type 0} (rec : CommonReconciler T) (ctx : Context) (P : Pass T → Type 0)
    : Type 0 where
  pub status :
      (s : Pass T) (status : CoreStatus) → P s → P (record s { obj = with_status status s.obj })
  pub patch :
      (before after : Object T) (s : Pass T) → P s → P (client_patch rec ctx before after s).1
  pub resolve : (s : Pass T) → P s → P (signoz_client_for rec ctx s).1
  pub find : (c : Client) (s : Pass T) → P s → P (adapter_find rec ctx c s).1
  pub read :
      (c : Client) (r : Option SigNozResource) (s : Pass T) → P s → P (adapter_read rec ctx c r s).1
  pub update :
      (c : Client) (r : Option SigNozResource) (s : Pass T)
      → P s
      → P (adapter_update rec ctx c r s).1
  pub create :
      (c : Client) (s : Pass T) → P s → JustMarked s.calls → P (adapter_create rec ctx c s).1

-- The same of the calls of a finalization, which creates and updates nothing in SigNoz.
pub record IsFinalKept {T : Type 0} (rec : CommonReconciler T) (ctx : Context) (P : Pass T → Type 0)
    : Type 0 where
  pub write : (obj : Object T) (s : Pass T) → P s → P (client_update rec ctx obj s).1
  pub resolve : (s : Pass T) → P s → P (signoz_client_for rec ctx s).1
  pub find : (c : Client) (s : Pass T) → P s → P (adapter_find rec ctx c s).1
  pub delete :
      (c : Client) (r : Option SigNozResource) (s : Pass T)
      → P s
      → P (adapter_delete rec ctx c r s).1

-- The same of the status write.
abbrev pub IsStatusKept : {T : Type 0} → CommonReconciler T → Context → (Pass T → Type 0) → Type 0
IsStatusKept {T} rec ctx P = (s : Pass T) → P s → P (client_update_status rec ctx s).1
