-- ===== src/Reconciler/New.antt =====
-- onNewObject, create, onConflict and adopt of commonReconciler.
use signoz_operator.Prelude.{
  ℕ, String, Bool, false, Option, none, some, List, [], ◌∷◌, ltb, length, if◌then◌else◌, get,
  str_eq, concat, join,
}
use signoz_operator.Errors.{Error, Result, ok, err, is_already_exists, is_retryable}
use signoz_operator.Core.{
  SigNozResource, annotation_signoz_resource_id, get_id_from_signoz_resource,
  get_ids_from_signoz_resources,
}
use signoz_operator.Clients.{Client}
use signoz_operator.Resources.Reason.{
  created, ambiguous, signoz_resource_id_mismatch, backend_error, outcome_recoverable,
  outcome_terminal,
}
use signoz_operator.Reconciler.Pass.{
  Context, Return, CommonReconciler, Step, pure, gets, modify, ◌>>=◌, ◌>>◌, done, requeue, failed,
}
use signoz_operator.Reconciler.Calls.{
  with_signoz_resource, adapter_find, adapter_create, add_create_attempt_annotation,
  remove_create_attempt_annotation, retry_interval, report,
}
use signoz_operator.Reconciler.Existing.{on_adapter_error, settle, on_existing_object}

-- annotations[AnnotationSigNozResourceID], which is empty if the key is missing.
unfoldable pub text_or_empty : Option String → String
text_or_empty none = ""
text_or_empty (some s) = s

unfoldable pub has_id : String → Result String → Bool
has_id pinned (ok id) = str_eq id pinned
has_id pinned (err e) = false

-- The first candidate with the pinned id, whatever it is a pointer to.
unfoldable pub find_pinned :
    String → List (Option SigNozResource) → Option (record { resource : Option SigNozResource })
find_pinned pinned [] = none
find_pinned pinned (r ∷ rs) =
    if has_id pinned (get_id_from_signoz_resource r)
    then some (record { resource = r })
    else find_pinned pinned rs

module _ {T : Type 0} (rec : CommonReconciler T) where
  unfoldable pub ambiguous_message : List (Option SigNozResource) → String → String
  ambiguous_message candidates identity = concat (
      "ambiguous: "
      ∷ rec.formatting.decimal (length candidates)
      ∷ " objects in SigNoz match identity "
      ∷ rec.formatting.quote identity
      ∷ " (candidates: "
      ∷ join (get_ids_from_signoz_resources candidates) ", "
      ∷ "); set annotation "
      ∷ annotation_signoz_resource_id
      ∷ " to the id of the one to adopt"
      ∷ [])

  unfoldable pub mismatch_message : List (Option SigNozResource) → String → String → String
  mismatch_message candidates pinned identity =
      let ids = get_ids_from_signoz_resources candidates in
      concat (
        "annotation "
        ∷ annotation_signoz_resource_id
        ∷ ": no object with id "
        ∷ rec.formatting.quote pinned
        ∷ " matches identity "
        ∷ rec.formatting.quote identity
        ∷ " (candidates: "
        ∷ (if ltb 0 (length ids) then join ids ", " else "none")
        ∷ ")"
        ∷ [])

  unfoldable pub conflict_message : String → String
  conflict_message identity = concat (
      "SigNoz reported a conflict for identity "
      ∷ rec.formatting.quote identity
      ∷ " but no matching object was found; will retry"
      ∷ [])

  module _ (ctx : Context) (c : Client) where
    unfoldable pub after_adopt_mark : Option SigNozResource → String → Option Error → Step T Return
    after_adopt_mark resource hash (some e) = pure (failed e)
    after_adopt_mark resource hash none = do
      modify (with_signoz_resource resource)
      on_existing_object rec ctx c hash

    unfoldable pub adopt : Option SigNozResource → String → Step T Return
    adopt resource hash = do
      failure ← add_create_attempt_annotation rec ctx
      after_adopt_mark resource hash failure

    -- Several candidates, of which none is guessed.
    unfoldable pub refuse_ambiguous : ℕ → List (Option SigNozResource) → String → Step T Return
    refuse_ambiguous generation candidates identity = do
      report rec generation outcome_terminal ambiguous (ambiguous_message candidates identity)
      pure done

    unfoldable pub retry_conflict : ℕ → String → Step T Return
    retry_conflict generation identity = do
      report rec generation outcome_recoverable backend_error (conflict_message identity)
      gets (λ s. requeue (retry_interval rec s.obj))

    unfoldable pub after_conflict_find :
        ℕ → String → String → Result (List (Option SigNozResource)) → Step T Return
    after_conflict_find generation identity hash (err e) = on_adapter_error rec e
    after_conflict_find generation identity hash (ok []) = retry_conflict generation identity
    after_conflict_find generation identity hash (ok (r ∷ [])) = adopt r hash
    after_conflict_find generation identity hash (ok (r ∷ q ∷ rs)) =
        refuse_ambiguous generation (r ∷ q ∷ rs) identity

    unfoldable pub on_conflict : String → String → Step T Return
    on_conflict identity hash s =
        (do
          candidates ← adapter_find rec ctx c
          after_conflict_find s.obj.meta.generation identity hash candidates)
          s

    -- After a failed create whose annotation, if it had to be, was removed.
    unfoldable pub after_unmark : Error → Option Error → Step T Return
    after_unmark e (some e') = pure (failed e')
    after_unmark e none = on_adapter_error rec e

    unfoldable pub after_create :
        ℕ → String → String → Result (Option SigNozResource) → Step T Return
    after_create generation identity hash (err e) = λ s.
        if is_already_exists e
        then on_conflict identity hash s
        else if is_retryable e
        then on_adapter_error rec e s
        else (do failure ← remove_create_attempt_annotation rec ctx; after_unmark e failure) s
    after_create generation identity hash (ok resource) = do
      modify (with_signoz_resource resource)
      settle rec generation hash created "Created in SigNoz"

    unfoldable pub after_create_mark : ℕ → String → String → Option Error → Step T Return
    after_create_mark generation identity hash (some e) = pure (failed e)
    after_create_mark generation identity hash none = do
      resource ← adapter_create rec ctx c
      after_create generation identity hash resource

    unfoldable pub create : String → String → Step T Return
    create identity hash s =
        (do
          failure ← add_create_attempt_annotation rec ctx
          after_create_mark s.obj.meta.generation identity hash failure)
          s

    unfoldable pub refuse_mismatch :
        ℕ → List (Option SigNozResource) → String → String → Step T Return
    refuse_mismatch generation candidates pinned identity = do
      report rec generation outcome_terminal signoz_resource_id_mismatch
          (mismatch_message candidates pinned identity)
      pure done

    unfoldable pub after_pin :
        ℕ
        → List (Option SigNozResource)
        → String
        → String
        → String
        → Option (record { resource : Option SigNozResource })
        → Step T Return
    after_pin generation candidates pinned identity hash (some p) = adopt p.resource hash
    after_pin generation candidates pinned identity hash none =
        refuse_mismatch generation candidates pinned identity

    unfoldable pub by_count : ℕ → List (Option SigNozResource) → String → String → Step T Return
    by_count generation [] identity hash = create identity hash
    by_count generation (r ∷ []) identity hash = adopt r hash
    by_count generation (r ∷ q ∷ rs) identity hash =
        refuse_ambiguous generation (r ∷ q ∷ rs) identity

    unfoldable pub after_find :
        ℕ → String → String → Result (List (Option SigNozResource)) → Step T Return
    after_find generation identity hash (err e) = on_adapter_error rec e
    after_find generation identity hash (ok candidates) = λ s.
        let pinned = text_or_empty (get s.obj.meta.annotations annotation_signoz_resource_id) in
        if str_eq pinned ""
        then by_count generation candidates identity hash s
        else after_pin generation candidates pinned identity hash (find_pinned pinned candidates) s

    unfoldable pub on_new_object : String → String → Step T Return
    on_new_object identity hash s =
        (do
          candidates ← adapter_find rec ctx c
          after_find s.obj.meta.generation identity hash candidates)
          s
