-- ===== src/Reconciler/Settled/Outcome.antt =====
-- The pass over an object that is not deleted.
use signoz_operator.Prelude.{ℕ, String, refl, Option, none, some}
use signoz_operator.Errors.{Error, Result, ok, err}
use signoz_operator.Kube.Laws.{IsConditionList}
use signoz_operator.Clients.{Client}
use signoz_operator.Resources.Reason.{outcome_terminal, outcome_suspended}
use signoz_operator.Reconciler.Pass.{Context, CommonReconciler, Pass}
use signoz_operator.Reconciler.Reconcile
use signoz_operator.Reconciler.Settled.{Answers, Ends, EndsAt, fails, Ending}
use signoz_operator.Reconciler.Settled.Existing.{
  Ends-if, concluded-Ends, retried-Ends, on_existing_object-Ends,
  remove_create_attempt_annotation-Answers,
}
use signoz_operator.Reconciler.Settled.New.{on_new_object-Ends}

module _ {T : Type 0} (rec : CommonReconciler T) (laws : IsConditionList rec.kube) where
  module _ (ctx : Context) where
    after_unmark_known-Ends :
        (c : Client) (hash : String) (failure : Option Error) (s : Pass T)
        → Answers failure s
        → EndsAt rec (Reconcile.after_unmark rec ctx c hash failure) s
    unfolding Reconcile.after_unmark
    after_unmark_known-Ends c hash (some e) s h = fails e h refl
    after_unmark_known-Ends c hash none s h = on_existing_object-Ends rec laws ctx c hash s

    by_id-Ends :
        (c : Client) (identity hash : String) (id : Result String)
        → Ending rec (Reconcile.by_id rec ctx c identity hash id)
    unfolding Reconcile.by_id Reconcile.known
    by_id-Ends c identity hash (err e) s = on_new_object-Ends rec laws ctx c identity hash s
    by_id-Ends c identity hash (ok id) s =
        after_unmark_known-Ends c hash _ _ (remove_create_attempt_annotation-Answers rec ctx s)

    after_client-Ends :
        (generation : ℕ) (identity hash : String) (c : Result Client)
        → Ending rec (Reconcile.after_client rec ctx generation identity hash c)
    unfolding Reconcile.after_client
    after_client-Ends generation identity hash (err e) s = retried-Ends rec laws generation _ _ s
    after_client-Ends generation identity hash (ok c) s = by_id-Ends c identity hash _ s

    after_hash-Ends :
        (generation : ℕ) (identity : String) (hash : Result String)
        → Ending rec (Reconcile.after_hash rec ctx generation identity hash)
    unfolding Reconcile.after_hash Reconcile.refuse_spec
    after_hash-Ends generation identity (err e) s =
        concluded-Ends rec laws generation outcome_terminal _ _ s refl
    after_hash-Ends generation identity (ok hash) s = after_client-Ends generation identity hash _ _

    after_identity-Ends :
        (generation : ℕ) (identity : Result String)
        → Ending rec (Reconcile.after_identity rec ctx generation identity)
    unfolding Reconcile.after_identity Reconcile.refuse_spec
    after_identity-Ends generation (err e) s =
        concluded-Ends rec laws generation outcome_terminal _ _ s refl
    after_identity-Ends generation (ok identity) s = after_hash-Ends generation identity _ s

    -- By the laws of the condition list, `reconcile` ends in one of two ways from any state: with an
    -- error, and then its last call was a patch that the API server refused with that error; or
    -- with an outcome that the conditions report, whatever they were before, and the object comes
    -- back by the schedule of that outcome.
    pub reconcile-Ends :
        (s : Pass T) → Ends rec (Reconcile.reconcile rec ctx s).0 (Reconcile.reconcile rec ctx s).1
    unfolding Reconcile.reconcile
    reconcile-Ends s =
        Ends-if rec laws s.obj.spec.suspend _ _
          (concluded-Ends rec laws _ outcome_suspended _ _ s refl) (after_identity-Ends _ _ s)
