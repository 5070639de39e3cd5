-- ===== src/Reconciler/Settled/New.antt =====
-- A new object: adopted, created, or neither.
use signoz_operator.Prelude.{ℕ, String, refl, Option, none, some, List, [], ◌∷◌}
use signoz_operator.Errors.{Error, Result, ok, err, is_already_exists, is_retryable}
use signoz_operator.Kube.Laws.{IsConditionList}
use signoz_operator.Core.{SigNozResource}
use signoz_operator.Clients.{Client}
use signoz_operator.Resources.Reason.{outcome_terminal}
use signoz_operator.Reconciler.Pass.{Context, CommonReconciler, Pass}
use signoz_operator.Reconciler.New
use signoz_operator.Reconciler.Settled.{Answers, EndsAt, fails, Ending}
use signoz_operator.Reconciler.Settled.Existing.{
  Ends-if, on_adapter_error-Ends, settle-Ends, concluded-Ends, retried-Ends,
  on_existing_object-Ends, add_create_attempt_annotation-Answers,
  remove_create_attempt_annotation-Answers,
}

module _ {T : Type 0} (rec : CommonReconciler T) (laws : IsConditionList rec.kube) where
  module _ (ctx : Context) (c : Client) where
    after_adopt_mark-Ends :
        (r : Option SigNozResource) (hash : String) (failure : Option Error) (s : Pass T)
        → Answers failure s
        → EndsAt rec (New.after_adopt_mark rec ctx c r hash failure) s
    unfolding New.after_adopt_mark
    after_adopt_mark-Ends r hash (some e) s h = fails e h refl
    after_adopt_mark-Ends r hash none s h = on_existing_object-Ends rec laws ctx c hash _

    adopt-Ends :
        (r : Option SigNozResource) (hash : String) → Ending rec (New.adopt rec ctx c r hash)
    unfolding New.adopt
    adopt-Ends r hash s =
        after_adopt_mark-Ends r hash _ _ (add_create_attempt_annotation-Answers rec ctx s)

    refuse_ambiguous-Ends :
        (generation : ℕ) (candidates : List (Option SigNozResource)) (identity : String)
        → Ending rec (New.refuse_ambiguous rec ctx c generation candidates identity)
    unfolding New.refuse_ambiguous
    refuse_ambiguous-Ends generation candidates identity s =
        concluded-Ends rec laws generation outcome_terminal _ _ s refl

    after_conflict_find-Ends :
        (generation : ℕ) (identity hash : String) (x : Result (List (Option SigNozResource)))
        → Ending rec (New.after_conflict_find rec ctx c generation identity hash x)
    unfolding New.after_conflict_find New.retry_conflict
    after_conflict_find-Ends generation identity hash (err e) s = on_adapter_error-Ends rec laws e s
    after_conflict_find-Ends generation identity hash (ok []) s =
        retried-Ends rec laws generation _ _ s
    after_conflict_find-Ends generation identity hash (ok (r ∷ [])) s = adopt-Ends r hash s
    after_conflict_find-Ends generation identity hash (ok (r ∷ q ∷ rs)) s =
        refuse_ambiguous-Ends generation (r ∷ q ∷ rs) identity s

    after_unmark-Ends :
        (e : Error) (failure : Option Error) (s : Pass T)
        → Answers failure s
        → EndsAt rec (New.after_unmark rec ctx c e failure) s
    unfolding New.after_unmark
    after_unmark-Ends e (some e') s h = fails e' h refl
    after_unmark-Ends e none s h = on_adapter_error-Ends rec laws e s

    after_create-Ends :
        (generation : ℕ) (identity hash : String) (x : Result (Option SigNozResource))
        → Ending rec (New.after_create rec ctx c generation identity hash x)
    unfolding New.after_create New.on_conflict
    after_create-Ends generation identity hash (ok r) s = settle-Ends rec laws generation hash _ _ _
    after_create-Ends generation identity hash (err e) s =
        Ends-if rec laws (is_already_exists e) _ _ (after_conflict_find-Ends _ identity hash _ _) (
          Ends-if rec laws (is_retryable e) _ _ (on_adapter_error-Ends rec laws e s)
            (after_unmark-Ends e _ _ (remove_create_attempt_annotation-Answers rec ctx s)))

    after_create_mark-Ends :
        (generation : ℕ) (identity hash : String) (failure : Option Error) (s : Pass T)
        → Answers failure s
        → EndsAt rec (New.after_create_mark rec ctx c generation identity hash failure) s
    unfolding New.after_create_mark
    after_create_mark-Ends generation identity hash (some e) s h = fails e h refl
    after_create_mark-Ends generation identity hash none s h =
        after_create-Ends generation identity hash _ _

    create-Ends : (identity hash : String) → Ending rec (New.create rec ctx c identity hash)
    unfolding New.create
    create-Ends identity hash s =
        after_create_mark-Ends _ identity hash _ _ (add_create_attempt_annotation-Answers rec ctx s)

    refuse_mismatch-Ends :
        (generation : ℕ) (candidates : List (Option SigNozResource)) (pinned identity : String)
        → Ending rec (New.refuse_mismatch rec ctx c generation candidates pinned identity)
    unfolding New.refuse_mismatch
    refuse_mismatch-Ends generation candidates pinned identity s =
        concluded-Ends rec laws generation outcome_terminal _ _ s refl

    after_pin-Ends :
        (generation : ℕ) (candidates : List (Option SigNozResource)) (pinned identity hash : String)
        (p : Option (record { resource : Option SigNozResource }))
        → Ending rec (New.after_pin rec ctx c generation candidates pinned identity hash p)
    unfolding New.after_pin
    after_pin-Ends generation candidates pinned identity hash (some p) = adopt-Ends p.resource hash
    after_pin-Ends generation candidates pinned identity hash none =
        refuse_mismatch-Ends generation candidates pinned identity

    by_count-Ends :
        (generation : ℕ) (candidates : List (Option SigNozResource)) (identity hash : String)
        → Ending rec (New.by_count rec ctx c generation candidates identity hash)
    unfolding New.by_count
    by_count-Ends generation [] identity hash = create-Ends identity hash
    by_count-Ends generation (r ∷ []) identity hash = adopt-Ends r hash
    by_count-Ends generation (r ∷ q ∷ rs) identity hash =
        refuse_ambiguous-Ends generation (r ∷ q ∷ rs) identity

    after_find-Ends :
        (generation : ℕ) (identity hash : String) (x : Result (List (Option SigNozResource)))
        → Ending rec (New.after_find rec ctx c generation identity hash x)
    unfolding New.after_find
    after_find-Ends generation identity hash (err e) s = on_adapter_error-Ends rec laws e s
    after_find-Ends generation identity hash (ok candidates) s =
        Ends-if rec laws _ _ _ (by_count-Ends generation candidates identity hash s)
          (after_pin-Ends generation candidates _ identity hash _ s)

    pub on_new_object-Ends :
        (identity hash : String) → Ending rec (New.on_new_object rec ctx c identity hash)
    unfolding New.on_new_object
    on_new_object-Ends identity hash s = after_find-Ends _ identity hash _ _
