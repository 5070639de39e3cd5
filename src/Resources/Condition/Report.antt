-- ===== src/Resources/Condition/Report.antt =====
-- What the conditions of a status show after SetConditionsOnOutcome, by the documented laws of the
-- library's condition list.
use signoz_operator.Prelude.{
  ℕ, String, ◌≡◌, ◌∙◌, refl, arith, str_eq, text_ne, Bool, true, false, none, some, List,
}
use signoz_operator.Kube.{
  Condition, ConditionStatus, condition_true, condition_false, condition_unknown, Kube,
}
use signoz_operator.Kube.Laws.{IsConditionList}
use signoz_operator.Resources.Reason.{
  Reason, ReconcilerOutcome, outcome_synced, outcome_pending, outcome_recoverable, outcome_terminal,
  outcome_suspended,
}
use signoz_operator.Resources.Condition.{
  ConditionType, presence, synced_status, ready_status, is_suspended, is_terminal, is_recoverable,
  condition_of, apply, conditions_on_outcome,
}

-- What a status shows: the Ready and Synced conditions, and which of the others are there.
pub record Row : Type 0 where
  pub ready : ConditionStatus
  pub synced : ConditionStatus
  pub terminal : Bool
  pub recoverable : Bool
  pub suspended : Bool

-- The five statuses that tell the outcomes apart. Only a synced object is Ready and Synced; a
-- terminal one is neither; a suspended one is not Ready, and whether it is synced is unknown; and
-- nothing is known of an object whose pass is to be retried or whose remote object is to come.
abbrev pub row_of : ReconcilerOutcome → Row
row_of outcome_synced = record {
  ready = condition_true;
  synced = condition_true;
  terminal = false;
  recoverable = false;
  suspended = false;
}
row_of outcome_pending = record {
  ready = condition_unknown;
  synced = condition_unknown;
  terminal = false;
  recoverable = false;
  suspended = false;
}
row_of outcome_recoverable = record {
  ready = condition_unknown;
  synced = condition_unknown;
  terminal = false;
  recoverable = true;
  suspended = false;
}
row_of outcome_terminal = record {
  ready = condition_false;
  synced = condition_false;
  terminal = true;
  recoverable = false;
  suspended = false;
}
row_of outcome_suspended = record {
  ready = condition_false;
  synced = condition_unknown;
  terminal = false;
  recoverable = false;
  suspended = true;
}

-- The row that SetConditionsOnOutcome computes.
abbrev computed_row : ReconcilerOutcome → Row
computed_row outcome = record {
  ready = ready_status outcome;
  synced = synced_status outcome;
  terminal = is_terminal outcome;
  recoverable = is_recoverable outcome;
  suspended = is_suspended outcome;
}

computed_row-row_of : (outcome : ReconcilerOutcome) → computed_row outcome ≡ row_of outcome
computed_row-row_of outcome_synced = refl
computed_row-row_of outcome_pending = refl
computed_row-row_of outcome_recoverable = refl
computed_row-row_of outcome_terminal = refl
computed_row-row_of outcome_suspended = refl

module _ (kube : Kube) where
  -- The condition of this type stands with this status.
  abbrev pub Shows : List Condition → String → ConditionStatus → Type 0
  Shows cs t s = (d : Condition) × (kube.find_status_condition cs t ≡ some d) × (d.status ≡ s)

  -- It is there, and True, exactly if `on`.
  abbrev pub Present : List Condition → String → Bool → Type 0
  Present cs t true = Shows cs t condition_true
  Present cs t false = kube.find_status_condition cs t ≡ none

  -- The conditions show this row.
  pub record ShowsRow (row : Row) (cs : List Condition) : Type 0 where
    pub ready : Shows cs "Ready" row.ready
    pub synced : Shows cs "Synced" row.synced
    pub terminal : Present cs "Terminal" row.terminal
    pub recoverable : Present cs "Recoverable" row.recoverable
    pub suspended : Present cs "Suspended" row.suspended

  -- The conditions say that the outcome is this one, and no other.
  abbrev pub Reports : ReconcilerOutcome → List Condition → Type 0
  Reports outcome cs = ShowsRow (row_of outcome) cs

module _ (kube : Kube) (laws : IsConditionList kube) (now generation : ℕ) (reason : Reason)
    (message : String) where
  abbrev applied : ConditionType → ConditionStatus → List Condition → List Condition
  applied = apply kube now generation reason message

  -- `apply` touches the condition of its own type only.
  find-apply_ne :
      (c : ConditionType) (s : ConditionStatus) (cs : List Condition) (t : String)
      → str_eq c.s t ≡ false
      → kube.find_status_condition (applied c s cs) t ≡ kube.find_status_condition cs t
  unfolding apply
  find-apply_ne c s cs t h = ground (
    arith,
    laws.find-remove_ne cs c.s t (text_ne c.s t h),
    laws.find-set_ne now cs (condition_of kube now generation reason message c s) t
        (text_ne c.s t h),
  )

  Shows-set :
      (c : ConditionType) (s : ConditionStatus) (cs : List Condition)
      → Shows kube
          (kube.set_status_condition now cs (condition_of kube now generation reason message c s))
          c.s
          s
  Shows-set c s cs =
      let (d, found, same) =
        laws.find-set_self now cs (condition_of kube now generation reason message c s) in
      (d, found, same.status)

  Shows-apply :
      (name : String) (s : ConditionStatus) (cs : List Condition)
      → Shows kube (applied (record { s = name; is_always_present = true }) s cs) name s
  unfolding apply
  Shows-apply name s cs = Shows-set (record { s = name; is_always_present = true }) s cs

  Present-apply :
      (name : String) (on : Bool) (cs : List Condition)
      → Present kube
          (applied (record { s = name; is_always_present = false }) (presence on) cs)
          name
          on
  unfolding apply
  Present-apply name true cs =
      Shows-set (record { s = name; is_always_present = false }) condition_true cs
  Present-apply name false cs = laws.find-remove_self cs name

  Shows-skip :
      (c : ConditionType) (s : ConditionStatus) (cs : List Condition) (t : String)
      (k : ConditionStatus)
      → str_eq c.s t ≡ false
      → Shows kube cs t k
      → Shows kube (applied c s cs) t k
  Shows-skip c s cs t k h (d, found, status) = (d, find-apply_ne c s cs t h ∙ found, status)

  Present-skip :
      (c : ConditionType) (s : ConditionStatus) (cs : List Condition) (t : String) (on : Bool)
      → str_eq c.s t ≡ false
      → Present kube cs t on
      → Present kube (applied c s cs) t on
  Present-skip c s cs t true h shows = Shows-skip c s cs t condition_true h shows
  Present-skip c s cs t false h absent = find-apply_ne c s cs t h ∙ absent

  shows_computed :
      (outcome : ReconcilerOutcome) (cs : List Condition)
      → ShowsRow kube
          (computed_row outcome)
          (conditions_on_outcome kube now generation reason message outcome cs)
  unfolding conditions_on_outcome
  shows_computed outcome cs = record {
    ready = Shows-apply "Ready" _ _;
    synced = Shows-skip _ _ _ _ _ refl (
        Shows-skip _ _ _ _ _ refl
          (Shows-skip _ _ _ _ _ refl (Shows-skip _ _ _ _ _ refl (Shows-apply "Synced" _ cs))));
    terminal =
        Present-skip _ _ _ _ _ refl (Present-skip _ _ _ _ _ refl (Present-apply "Terminal" _ _));
    recoverable = Present-skip _ _ _ _ _ refl (Present-apply "Recoverable" _ _);
    suspended =
        Present-skip _ _ _ _ _ refl (
          Present-skip _ _ _ _ _ refl
            (Present-skip _ _ _ _ _ refl (Present-apply "Suspended" _ _)));
  }

  pub conditions_on_outcome-Reports :
      (outcome : ReconcilerOutcome) (cs : List Condition)
      → Reports kube outcome (conditions_on_outcome kube now generation reason message outcome cs)
  conditions_on_outcome-Reports outcome cs =
      rw (computed_row-row_of outcome) at (shows_computed outcome cs)
