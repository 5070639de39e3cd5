-- ===== src/ProviderConfig/Status/Ready.antt =====
-- What the Ready condition of a provider config says of its resolution.
use signoz_operator.Prelude.{
  ℕ, String, ◌≡◌, ◌≢◌, ◌⊎◌, true, [], ◌∷◌, refl, none, some, Option, List, str_eq, text_ne,
  Bool-cases, inl, inr, ◌∙◌, ap, sym,
}
use signoz_operator.Errors.{Error, Base, Result, ok, err, as_base}
use signoz_operator.Kube.{Condition, condition_true, condition_false}
use signoz_operator.Kube.Laws.{SameCondition, IsConditionList}
use signoz_operator.ProviderConfig.Spec.{ProviderConfigSpec}
use signoz_operator.ProviderConfig.Cache.{Reader, Cache}
use signoz_operator.ProviderConfig.Resolver.{resolve}
use signoz_operator.ProviderConfig.Status.{
  ProviderConfigStatus, StatusWriter, condition_reason, ready_of_failure, ready_of, set_conditions,
  reconcile, returned, after_write, Write, condition_ready,
}

-- What the fields of a condition say of a result.
abbrev pub Tells : {A : Type 0} → Result A → Condition → Type 0
Tells (ok a) d = (d.status ≡ condition_true) × (d.reason ≡ "Resolved")
Tells (err e) d = (d.status ≡ condition_false) × (d.reason ≢ "Unknown")

condition_reason_known : (b : Base) → condition_reason b ≢ "Unknown"
unfolding condition_reason
condition_reason_known b = elim (Bool-cases (str_eq b.code "Unknown")) [
  | inl unknown ↦ rw unknown (text_ne _ _ refl)
  | inr known ↦ rw known (text_ne _ _ known)
]

ready_of_failure-Tells :
    (A : Type 0) (generation : ℕ) (e : Error) (b : Option Base)
    → Tells {A = A} (err e) (ready_of_failure generation e b)
unfolding ready_of_failure
ready_of_failure-Tells A generation e none = (refl, text_ne _ _ refl)
ready_of_failure-Tells A generation e (some b) = (refl, condition_reason_known b)

ready_of-Tells : (A : Type 0) (generation : ℕ) (r : Result A) → Tells r (ready_of generation r)
unfolding ready_of
ready_of-Tells A generation (ok a) = (refl, refl)
ready_of-Tells A generation (err e) = ready_of_failure-Tells A generation e (as_base e)

SameCondition-Tells :
    {A : Type 0} (r : Result A) (d c : Condition) → SameCondition d c → Tells r c → Tells r d
SameCondition-Tells (ok a) d c same (status, reason) = (same.status ∙ status, same.reason ∙ reason)
SameCondition-Tells (err e) d c same (status, known) = (same.status ∙ status, rw same.reason known)

type-ready_of_failure :
    (generation : ℕ) (e : Error) (b : Option Base)
    → (ready_of_failure generation e b).type ≡ condition_ready
unfolding ready_of_failure
type-ready_of_failure generation e none = refl
type-ready_of_failure generation e (some b) = refl

type-ready_of :
    {A : Type 0} (generation : ℕ) (r : Result A) → (ready_of generation r).type ≡ condition_ready
unfolding ready_of
type-ready_of generation (ok a) = refl
type-ready_of generation (err e) = type-ready_of_failure generation e (as_base e)

module _ (w : StatusWriter) (laws : IsConditionList w.kube) where
  -- The Ready condition is there and says this of the result.
  abbrev pub IsReported : {A : Type 0} → Result A → List Condition → Type 0
  IsReported r cs =
      (d : Condition) × (w.kube.find_status_condition cs condition_ready ≡ some d) × Tells r d

  set_conditions-IsReported :
      {A : Type 0} (generation : ℕ) (c : Cache) (r : Result A) (status : ProviderConfigStatus)
      → IsReported r (set_conditions w generation c r status).conditions
  unfolding set_conditions
  set_conditions-IsReported generation c r status =
      let (d, found, same) = laws.find-set_self w.now status.conditions (ready_of generation r) in
      (
        d,
        ap
              (w.kube.find_status_condition
                (w.kube.set_status_condition w.now status.conditions (ready_of generation r)))
              (sym (type-ready_of generation r))
            ∙ found,
        SameCondition-Tells r d _ same (ready_of-Tells _ generation r),
      )

  -- What the environment documents: Status().Update stores the conditions that it is given, and two
  -- statuses that DeepEqual finds equal have the same.
  pub record StoresConditions : Type 0 where
    pub stored :
        (status kept : ProviderConfigStatus)
        → w.update status ≡ ok kept
        → kept.conditions ≡ status.conditions
    pub equal : (s t : ProviderConfigStatus) → w.deep_equal s t ≡ true → s.conditions ≡ t.conditions

  -- The status that the API server has after these writes, of which none may have been made.
  abbrev pub kept : ProviderConfigStatus → List Write → ProviderConfigStatus
  kept status [] = status
  kept status (write ∷ writes) = elim write.answer [
    | ok stored ↦ stored
    | err e ↦ kept status writes
  ]

  abbrev pub IsReturned : {A : Type 0} → Result A → Option Error → Type 0
  IsReturned (ok a) e = e ≡ none
  IsReturned (err failure) e = e ≡ some failure

  -- How a pass ends: the API server has a status that reports the result, which is returned; or the
  -- one write failed, and an error is returned.
  abbrev pub IsSaved :
      {A : Type 0} → Result A → ProviderConfigStatus → Option Error → List Write → Type 0
  IsSaved r status e writes =
      (IsReported r (kept status writes).conditions × IsReturned r e)
      ⊎ ((written : ProviderConfigStatus) × (failure : Error) × (writes
            ≡ record { written = written; answer = err failure } ∷ [])
          × (e ≢ none))

  returned-IsReturned : {A : Type 0} (r : Result A) → IsReturned r (returned w r)
  unfolding returned
  returned-IsReturned (ok a) = refl
  returned-IsReturned (err e) = refl

  after_write-IsSaved :
      {A : Type 0} (r : Result A) (status written : ProviderConfigStatus)
      (answer : Result ProviderConfigStatus)
      → IsReported r written.conditions
      → ((stored : ProviderConfigStatus)
          → answer ≡ ok stored
          → stored.conditions ≡ written.conditions)
      → IsReported r (after_write w r written answer).1.conditions
        × IsSaved r status
            (after_write w r written answer).0
            (record { written = written; answer = answer } ∷ [])
  unfolding after_write
  after_write-IsSaved r status written (ok stored) reported same =
      let still : IsReported r stored.conditions = rw (same stored refl) reported in
      (still, inl (still, returned-IsReturned r))
  after_write-IsSaved r status written (err e) reported same =
      (reported, inr (written, e, refl, λ p. cc p))

  -- By the laws of the condition list, and with an API server that stores the conditions of a status,
  -- a pass over a provider config leaves there a status whose Ready condition is True, as Resolved,
  -- if the config resolved, and otherwise False with a reason that is not Unknown; it then returns
  -- the failure to resolve, or no error. Or the write of the status failed, and the pass returns an
  -- error. The status in memory has that Ready condition in each case.
  pub reconcile-IsReported :
      StoresConditions
      → (reader : Reader) (generation : ℕ) (spec : ProviderConfigSpec) (namespace : String)
        (status : ProviderConfigStatus)
      → IsReported
          (resolve reader namespace spec).0
          (reconcile w reader generation spec namespace status).1.conditions
        × IsSaved
            (resolve reader namespace spec).0
            status
            (reconcile w reader generation spec namespace status).0
            (reconcile w reader generation spec namespace status).2
  unfolding reconcile
  reconcile-IsReported env reader generation spec namespace status =
      let r = (resolve reader namespace spec).0 in
      let status' = set_conditions w generation (resolve reader namespace spec).1 r status in
      let reported = set_conditions-IsReported generation _ r status in
      elim (Bool-cases (w.deep_equal status status')) [
        | inl same ↦
            rw same
              (reported, inl (rw (env.equal status status' same) reported, returned-IsReturned r))
        | inr changed ↦ rw changed (
            after_write-IsSaved r status status' (w.update status') reported
              (λ stored e. env.stored status' stored e))
      ]
