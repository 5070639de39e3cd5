-- ===== src/Reconciler/Invariant/Kept.antt =====
-- Every method of a pass over an object that is not deleted keeps what its calls keep.
use signoz_operator.Prelude.{
  ℕ, String, Bool, true, false, Option, none, some, List, [], ◌∷◌, if◌then◌else◌, RawMessage, ltb,
  length,
}
use signoz_operator.Errors.{Error, Result, ok, err, is_not_found, is_already_exists, is_retryable}
use signoz_operator.Core.{SigNozResource}
use signoz_operator.Clients.{Client}
use signoz_operator.Resources.Object.{CompareResult}
use signoz_operator.Resources.Reason.{Reason, ReconcilerOutcome}
use signoz_operator.Reconciler.Pass.{Context, Return, CommonReconciler, Pass}
use signoz_operator.Reconciler.Calls.{
  add_create_attempt_annotation, remove_create_attempt_annotation, remove_attempt, report,
}
use signoz_operator.Reconciler.Existing
use signoz_operator.Reconciler.New
use signoz_operator.Reconciler.Reconcile
use signoz_operator.Reconciler.Invariant.Marks.{Marks, add_create_attempt_annotation-Marks}
use signoz_operator.Reconciler.Invariant.{IsKept}

module _ {T : Type 0} (rec : CommonReconciler T) (ctx : Context) {P : Pass T → Type 0}
    (kept : IsKept rec ctx P) where
  if-Kept : (b : Bool) (p q : Return × Pass T) → P p.1 → P q.1 → P (if b then p else q).1
  if-Kept true p q hp hq = hp
  if-Kept false p q hp hq = hq

  report-Kept :
      (generation : ℕ) (outcome : ReconcilerOutcome) (reason : Reason) (message : String)
      (s : Pass T)
      → P s
      → P (report rec generation outcome reason message s).1
  unfolding report
  report-Kept generation outcome reason message s h = kept.status s _ h

  on_adapter_error-Kept : (e : Error) (s : Pass T) → P s → P (Existing.on_adapter_error rec e s).1
  unfolding Existing.on_adapter_error
  on_adapter_error-Kept e s h = kept.status s _ h

  settle-Kept :
      (generation : ℕ) (hash : String) (reason : Reason) (message : String) (s : Pass T)
      → P s
      → P (Existing.settle rec generation hash reason message s).1
  unfolding Existing.settle
  settle-Kept generation hash reason message s h =
      report-Kept generation _ reason message _ (kept.status s _ h)

  forget-Kept : (generation : ℕ) (s : Pass T) → P s → P (Existing.forget rec generation s).1
  unfolding Existing.forget
  forget-Kept generation s h =
      report-Kept generation _ _ _ _
        (kept.status s (record s.obj.status { signoz_resource = none; observed_hash = "" }) h)

  module _ (c : Client) where
    after_update-Kept :
        (generation : ℕ) (hash : String) (failure : Option Error) (s : Pass T)
        → P s
        → P (Existing.after_update rec ctx c generation hash failure s).1
    unfolding Existing.after_update
    after_update-Kept generation hash (some e) s h = on_adapter_error-Kept e s h
    after_update-Kept generation hash none s h = settle-Kept generation hash _ _ s h

    after_compare-Kept :
        (generation : ℕ) (r : Option SigNozResource) (hash : String) (x : Result CompareResult)
        (s : Pass T)
        → P s
        → P (Existing.after_compare rec ctx c generation r hash x s).1
    unfolding Existing.after_compare Existing.update_remote
    after_compare-Kept generation r hash (err e) s h = report-Kept generation _ _ _ s h
    after_compare-Kept generation r hash (ok x) s h =
        if-Kept (ltb 0 (length x.immutable_fields)) _ _ (report-Kept generation _ _ _ s h) (
          if-Kept (Existing.is_changed s.obj.status.observed_hash x hash) _ _
            (after_update-Kept generation hash _ _ (kept.update c r s h))
            (settle-Kept generation hash _ _ s h))

    after_read-Kept :
        (generation : ℕ) (r : Option SigNozResource) (hash : String) (x : Result RawMessage)
        (s : Pass T)
        → P s
        → P (Existing.after_read rec ctx c generation r hash x s).1
    unfolding Existing.after_read
    after_read-Kept generation r hash (ok remote) s h = after_compare-Kept generation r hash _ s h
    after_read-Kept generation r hash (err e) s h =
        if-Kept (is_not_found e) _ _ (forget-Kept generation s h) (on_adapter_error-Kept e s h)

    on_existing_object-Kept :
        (hash : String) (s : Pass T) → P s → P (Existing.on_existing_object rec ctx c hash s).1
    unfolding Existing.on_existing_object
    on_existing_object-Kept hash s h = after_read-Kept _ _ hash _ _ (kept.read c _ s h)

    add_create_attempt_annotation-Kept :
        (s : Pass T) → P s → P (add_create_attempt_annotation rec ctx s).1
    unfolding add_create_attempt_annotation
    add_create_attempt_annotation-Kept s h = kept.patch _ _ s h

    remove_attempt-Kept :
        (attempt : Option String) (s : Pass T) → P s → P (remove_attempt rec ctx attempt s).1
    unfolding remove_attempt
    remove_attempt-Kept none s h = h
    remove_attempt-Kept (some a) s h = kept.patch _ _ s h

    after_adopt_mark-Kept :
        (r : Option SigNozResource) (hash : String) (failure : Option Error) (s : Pass T)
        → P s
        → P (New.after_adopt_mark rec ctx c r hash failure s).1
    unfolding New.after_adopt_mark
    after_adopt_mark-Kept r hash (some e) s h = h
    after_adopt_mark-Kept r hash none s h = on_existing_object-Kept hash _ (kept.status s _ h)

    adopt-Kept :
        (r : Option SigNozResource) (hash : String) (s : Pass T)
        → P s
        → P (New.adopt rec ctx c r hash s).1
    unfolding New.adopt
    adopt-Kept r hash s h =
        after_adopt_mark-Kept r hash _ _ (add_create_attempt_annotation-Kept s h)

    after_conflict_find-Kept :
        (generation : ℕ) (identity hash : String) (x : Result (List (Option SigNozResource)))
        (s : Pass T)
        → P s
        → P (New.after_conflict_find rec ctx c generation identity hash x s).1
    unfolding New.after_conflict_find New.retry_conflict New.refuse_ambiguous
    after_conflict_find-Kept generation identity hash (err e) s h = on_adapter_error-Kept e s h
    after_conflict_find-Kept generation identity hash (ok []) s h = report-Kept generation _ _ _ s h
    after_conflict_find-Kept generation identity hash (ok (r ∷ [])) s h = adopt-Kept r hash s h
    after_conflict_find-Kept generation identity hash (ok (r ∷ q ∷ rs)) s h =
        report-Kept generation _ _ _ s h

    after_unmark-Kept :
        (e : Error) (failure : Option Error) (s : Pass T)
        → P s
        → P (New.after_unmark rec ctx c e failure s).1
    unfolding New.after_unmark
    after_unmark-Kept e (some e') s h = h
    after_unmark-Kept e none s h = on_adapter_error-Kept e s h

    after_create-Kept :
        (generation : ℕ) (identity hash : String) (x : Result (Option SigNozResource)) (s : Pass T)
        → P s
        → P (New.after_create rec ctx c generation identity hash x s).1
    unfolding New.after_create New.on_conflict remove_create_attempt_annotation
    after_create-Kept generation identity hash (ok r) s h =
        settle-Kept generation hash _ _ _ (kept.status s _ h)
    after_create-Kept generation identity hash (err e) s h =
        if-Kept (is_already_exists e) _ _
          (after_conflict_find-Kept _ identity hash _ _ (kept.find c s h))
          (if-Kept (is_retryable e) _ _ (on_adapter_error-Kept e s h)
            (after_unmark-Kept e _ _ (remove_attempt-Kept _ s h)))

    after_create_mark-Kept :
        (generation : ℕ) (identity hash : String) (failure : Option Error) (s : Pass T)
        → Marks failure s
        → P s
        → P (New.after_create_mark rec ctx c generation identity hash failure s).1
    unfolding New.after_create_mark
    after_create_mark-Kept generation identity hash (some e) s m h = h
    after_create_mark-Kept generation identity hash none s m h =
        after_create-Kept generation identity hash _ _ (kept.create c s h m)

    by_count-Kept :
        (generation : ℕ) (candidates : List (Option SigNozResource)) (identity hash : String)
        (s : Pass T)
        → P s
        → P (New.by_count rec ctx c generation candidates identity hash s).1
    unfolding New.by_count New.create New.refuse_ambiguous
    by_count-Kept generation [] identity hash s h =
        after_create_mark-Kept _ identity hash _ _ (add_create_attempt_annotation-Marks rec ctx s)
          (add_create_attempt_annotation-Kept s h)
    by_count-Kept generation (r ∷ []) identity hash s h = adopt-Kept r hash s h
    by_count-Kept generation (r ∷ q ∷ rs) identity hash s h = report-Kept generation _ _ _ s h

    after_pin-Kept :
        (generation : ℕ) (candidates : List (Option SigNozResource)) (pinned identity hash : String)
        (p : Option (record { resource : Option SigNozResource })) (s : Pass T)
        → P s
        → P (New.after_pin rec ctx c generation candidates pinned identity hash p s).1
    unfolding New.after_pin New.refuse_mismatch
    after_pin-Kept generation candidates pinned identity hash (some p) s h =
        adopt-Kept p.resource hash s h
    after_pin-Kept generation candidates pinned identity hash none s h =
        report-Kept generation _ _ _ s h

    after_find-Kept :
        (generation : ℕ) (identity hash : String) (x : Result (List (Option SigNozResource)))
        (s : Pass T)
        → P s
        → P (New.after_find rec ctx c generation identity hash x s).1
    unfolding New.after_find
    after_find-Kept generation identity hash (err e) s h = on_adapter_error-Kept e s h
    after_find-Kept generation identity hash (ok candidates) s h =
        if-Kept _ _ _ (by_count-Kept generation candidates identity hash s h)
          (after_pin-Kept generation candidates _ identity hash _ s h)

    after_unmark_known-Kept :
        (hash : String) (failure : Option Error) (s : Pass T)
        → P s
        → P (Reconcile.after_unmark rec ctx c hash failure s).1
    unfolding Reconcile.after_unmark
    after_unmark_known-Kept hash (some e) s h = h
    after_unmark_known-Kept hash none s h = on_existing_object-Kept hash s h

    by_id-Kept :
        (identity hash : String) (id : Result String) (s : Pass T)
        → P s
        → P (Reconcile.by_id rec ctx c identity hash id s).1
    unfolding Reconcile.by_id Reconcile.known New.on_new_object remove_create_attempt_annotation
    by_id-Kept identity hash (err e) s h = after_find-Kept _ identity hash _ _ (kept.find c s h)
    by_id-Kept identity hash (ok id) s h =
        after_unmark_known-Kept hash _ _ (remove_attempt-Kept _ s h)

  after_client-Kept :
      (generation : ℕ) (identity hash : String) (c : Result Client) (s : Pass T)
      → P s
      → P (Reconcile.after_client rec ctx generation identity hash c s).1
  unfolding Reconcile.after_client
  after_client-Kept generation identity hash (err e) s h = report-Kept generation _ _ _ s h
  after_client-Kept generation identity hash (ok c) s h = by_id-Kept c identity hash _ s h

  after_hash-Kept :
      (generation : ℕ) (identity : String) (hash : Result String) (s : Pass T)
      → P s
      → P (Reconcile.after_hash rec ctx generation identity hash s).1
  unfolding Reconcile.after_hash Reconcile.refuse_spec
  after_hash-Kept generation identity (err e) s h = report-Kept generation _ _ _ s h
  after_hash-Kept generation identity (ok hash) s h =
      after_client-Kept generation identity hash _ _ (kept.resolve s h)

  after_identity-Kept :
      (generation : ℕ) (identity : Result String) (s : Pass T)
      → P s
      → P (Reconcile.after_identity rec ctx generation identity s).1
  unfolding Reconcile.after_identity Reconcile.refuse_spec
  after_identity-Kept generation (err e) s h = report-Kept generation _ _ _ s h
  after_identity-Kept generation (ok identity) s h = after_hash-Kept generation identity _ s h

  pub reconcile-Kept : (s : Pass T) → P s → P (Reconcile.reconcile rec ctx s).1
  unfolding Reconcile.reconcile
  reconcile-Kept s h =
      if-Kept s.obj.spec.suspend _ _ (report-Kept _ _ _ _ s h) (after_identity-Kept _ _ s h)
