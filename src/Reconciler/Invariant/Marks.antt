-- ===== src/Reconciler/Invariant/Marks.antt =====
-- An accepted patch of the create-attempt annotation marks the calls.
use signoz_operator.Prelude.{String, ◌≡◌, Option, none, some, List, ◌∷◌, get, get-put}
use signoz_operator.Errors.{Error, Result, ok, err}
use signoz_operator.Core.{annotation_create_attempt}
use signoz_operator.Resources.Object.{Object}
use signoz_operator.Reconciler.Pass.{Context, Event, patched, CommonReconciler, Pass}
use signoz_operator.Reconciler.Calls.{
  error_of, answered, client_patch, add_create_attempt_annotation,
}
use signoz_operator.Reconciler.Invariant.{JustMarked, just_marked}

-- What a mark without a failure leaves.
abbrev pub Marks : {T : Type 0} → Option Error → Pass T → Type 0
Marks none s = JustMarked s.calls
Marks (some e) s = Unit {0}

module _ {T : Type 0} (rec : CommonReconciler T) (ctx : Context) where
  answer-Marks :
      (before after : Object T) (calls : List (Event T)) (at : String) (answer : Result (Object T))
      → get after.meta.annotations annotation_create_attempt ≡ some at
      → Marks
          (error_of answer)
          (record { obj = answered after answer; calls = patched ctx before after answer ∷ calls })
  answer-Marks before after calls at (ok obj) h = just_marked ctx before after obj calls at h
  answer-Marks before after calls at (err e) h = tt

  pub add_create_attempt_annotation-Marks :
      (s : Pass T)
      → Marks
          (add_create_attempt_annotation rec ctx s).0
          (add_create_attempt_annotation rec ctx s).1
  unfolding add_create_attempt_annotation client_patch
  add_create_attempt_annotation-Marks s =
      answer-Marks s.obj _ s.calls (rec.formatting.rfc3339 (rec.clock s.calls)) _ (simp (get-put))
