-- ===== src/Reconciler/Drift.antt =====
-- When a pass over an object that is known updates it in SigNoz.
use signoz_operator.Prelude.{
  ℕ, String, ◌≡◌, ◌≢◌, Bool, [], not, ◌&&◌, eq_iff, text_ne, ◌⊎◌, refl, arith, true, false, Option,
  none, some, List, ◌∷◌, ltb, length, Bool-cases, inl, inr, RawMessage,
}
use signoz_operator.Errors.{Error, Result, ok, err, is_not_found}
use signoz_operator.Core.{SigNozResource}
use signoz_operator.Clients.{Client}
use signoz_operator.Resources.Object.{CompareResult}
use signoz_operator.Reconciler.Pass.{Context, CommonReconciler, Event, Pass, read, remote_updated}
use signoz_operator.Reconciler.Calls.{adapter_read, adapter_update, report}
use signoz_operator.Reconciler.Existing.{
  on_adapter_error, settle, forget, is_changed, after_update, update_remote, after_compare,
  after_read, on_existing_object,
}

-- The tests that the code makes on a length, as facts on the list.
is_some_list : (xs : List String) → ltb 0 (length xs) ≡ true → xs ≢ []
is_some_list [] h = cc h
is_some_list (x ∷ xs) h = λ p. cc p

is_empty_list : (xs : List String) → ltb 0 (length xs) ≡ false → xs ≡ []
is_empty_list [] h = refl
is_empty_list (x ∷ xs) h = ground arith

-- is_changed by its four tests.
by_tests :
    (fields observed_none observed_same : Bool)
    → not (not fields && not (not observed_none && not observed_same)) ≡ true
    → (fields ≡ true) ⊎ ((observed_none ≡ false) × (observed_same ≡ false))
by_tests true n s h = inl refl
by_tests false true s h = cc h
by_tests false false true h = cc h
by_tests false false false h = inr (refl, refl)

by_no_tests :
    (fields observed_none observed_same : Bool)
    → not (not fields && not (not observed_none && not observed_same)) ≡ false
    → (fields ≡ false) × ((observed_none ≡ true) ⊎ (observed_same ≡ true))
by_no_tests true n s h = cc h
by_no_tests false true s h = (refl, inl refl)
by_no_tests false false true h = (refl, inr refl)
by_no_tests false false false h = cc h

module _ {T : Type 0} (rec : CommonReconciler T) (ctx : Context) (c : Client) (hash : String) where
  after_update-calls :
      (generation : ℕ) (failure : Option Error) (q : Pass T)
      → (after_update rec ctx c generation hash failure q).1.calls ≡ q.calls
  unfolding after_update on_adapter_error settle report
  after_update-calls generation (some e) q = refl
  after_update-calls generation none q = refl

  -- The comparison found a field changed that an update can set, or the hash is not the observed one,
  -- which there is.
  abbrev pub HasChanged : CompareResult → String → Type 0
  HasChanged found observed = (found.updatable_fields ≢ []) ⊎ ((observed ≢ "") × (observed ≢ hash))

  -- No such field, and no other hash observed.
  abbrev pub IsUnchanged : CompareResult → String → Type 0
  IsUnchanged found observed = (found.updatable_fields ≡ []) × ((observed ≡ "") ⊎ (observed ≡ hash))

  -- An update on top of these calls, by what the comparison found.
  abbrev pub IsDrift :
      Result CompareResult → Option SigNozResource → Pass T → List (Event T) → Type 0
  IsDrift compared resource q calls =
      (found : CompareResult) × (failure : Option Error) × (compared ≡ ok found)
      × (found.immutable_fields ≡ [])
      × HasChanged found q.obj.status.observed_hash
      × (calls ≡ remote_updated ctx c q.obj resource failure ∷ q.calls)

  -- No call on top of these, since the comparison failed, found a field changed that may only be set
  -- at create, or found nothing to do.
  abbrev pub IsRest : Result CompareResult → Pass T → List (Event T) → Type 0
  IsRest (err e) q calls = calls ≡ q.calls
  IsRest (ok found) q calls =
      (calls ≡ q.calls)
      × ((found.immutable_fields ≢ []) ⊎ IsUnchanged found q.obj.status.observed_hash)

  changed :
      (found : CompareResult) (observed : String)
      → is_changed observed found hash ≡ true
      → HasChanged found observed
  unfolding is_changed
  changed found observed h = elim (by_tests (ltb 0 (length found.updatable_fields)) _ _ h) [
    | inl fields ↦ inl (is_some_list found.updatable_fields fields)
    | inr (there, other) ↦ inr (text_ne observed "" there, text_ne observed hash other)
  ]

  unchanged :
      (found : CompareResult) (observed : String)
      → is_changed observed found hash ≡ false
      → IsUnchanged found observed
  unfolding is_changed
  unchanged found observed h =
      let (fields, tests) = by_no_tests (ltb 0 (length found.updatable_fields)) _ _ h in
      (
        is_empty_list found.updatable_fields fields,
        elim tests [
          | inl nothing ↦ inl ((eq_iff observed "").0 nothing)
          | inr same ↦ inr ((eq_iff observed hash).0 same)
        ],
      )

  after_compare-calls :
      (generation : ℕ) (resource : Option SigNozResource) (compared : Result CompareResult)
      (q : Pass T)
      → IsRest compared q (after_compare rec ctx c generation resource hash compared q).1.calls
        ⊎ IsDrift compared resource q
            (after_compare rec ctx c generation resource hash compared q).1.calls
  unfolding after_compare update_remote adapter_update settle report
  after_compare-calls generation resource (err e) q = inl refl
  after_compare-calls generation resource (ok found) q =
      elim (Bool-cases (ltb 0 (length found.immutable_fields))) [
        | inl immutable ↦ inl (rw immutable (refl, inl (is_some_list _ immutable)))
        | inr mutable ↦ elim (Bool-cases (is_changed q.obj.status.observed_hash found hash)) [
          | inl drifted ↦
              let failure = rec.adapter.update q.calls ctx c q.obj resource in
              inr (
                found,
                failure,
                refl,
                is_empty_list _ mutable,
                changed found q.obj.status.observed_hash drifted,
                rw (mutable, drifted)
                    (after_update-calls generation failure
                      (record q { calls = remote_updated ctx c q.obj resource failure ∷ q.calls })),
              )
          | inr same ↦
              inl (rw (mutable, same) (refl, inr (unchanged found q.obj.status.observed_hash same)))
        ]
      ]

  -- With the read of the remote object.
  abbrev pub with_read : Pass T → Result RawMessage → Pass T
  with_read s answer = record s {
    calls = read ctx c s.obj s.obj.status.signoz_resource answer ∷ s.calls;
  }

  -- What onExistingObject adds to the calls: the read, and no more or one update on top, by the
  -- comparison with the answer of the read.
  abbrev pub IsGuarded : Pass T → List (Event T) → Type 0
  IsGuarded s calls =
      ((e : Error) × (calls ≡ (with_read s (err e)).calls))
      ⊎ ((remote : RawMessage) × (IsRest (rec.kind.compare s.obj.template remote)
              (with_read s (ok remote)) calls
            ⊎ IsDrift (rec.kind.compare s.obj.template remote) s.obj.status.signoz_resource
                (with_read s (ok remote)) calls))

  after_read-IsGuarded :
      (s : Pass T) (answer : Result RawMessage)
      → IsGuarded s
          (after_read rec ctx c s.obj.meta.generation s.obj.status.signoz_resource hash answer
            (record s {
              calls = read ctx c s.obj s.obj.status.signoz_resource answer ∷ s.calls;
            })).1.calls
  unfolding after_read forget on_adapter_error report
  after_read-IsGuarded s (err e) = inl (
    e,
    elim (Bool-cases (is_not_found e)) [ inl gone ↦ rw gone refl | inr other ↦ rw other refl ],
  )
  after_read-IsGuarded s (ok remote) = inr (
    remote,
    after_compare-calls s.obj.meta.generation s.obj.status.signoz_resource
        (rec.kind.compare s.obj.template remote)
        (record s { calls = read ctx c s.obj s.obj.status.signoz_resource (ok remote) ∷ s.calls }),
  )

  -- onExistingObject reads the remote object once, and then updates it once or not at all. It updates
  -- exactly where the read was answered, the comparison with the answer found no field changed that
  -- may only be set at create, and it found another one changed, or a hash is observed that is not
  -- that of the body.
  pub on_existing_object-IsGuarded :
      (s : Pass T) → IsGuarded s (on_existing_object rec ctx c hash s).1.calls
  unfolding on_existing_object adapter_read
  on_existing_object-IsGuarded s = after_read-IsGuarded s _
