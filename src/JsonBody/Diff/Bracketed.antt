-- ===== src/JsonBody/Diff/Bracketed.antt =====
-- The reporter on a run of go-cmp, whose calls are bracketed: what each PushStep opens a PopStep
-- closes.
use mathlib.Core.List.{append_assoc, append-nil, append-eq-nil_iff}
use signoz_operator.Prelude.{
  String, ◌≡◌, ◌↔◌, refl, ap, ◌∙◌, sym, Bool, true, false, ◌&&◌, List, [], ◌∷◌, ◌++◌, ℤ,
}
use signoz_operator.JsonBody.Value.{Value}
use signoz_operator.JsonBody.Diff.{
  CmpPath, PathStep, ignores, Event, push, report, pop, Comparer, equal, diff, PathReporter, run,
  handle, format_path,
}
use signoz_operator.JsonBody.Diff.Agrees.{IsComparison, agrees, equal-agrees}

-- A bracketed run: over, a report and then the rest, or what is within a step and then the rest.
pub data Trace : Type 0 where
  over : Trace
  told : Bool → Trace → Trace
  within : PathStep → Trace → Trace → Trace

abbrev pub events_of : Trace → List Event
events_of over = []
events_of (told same t) = report same ∷ events_of t
events_of (within step inner t) = push step ∷ (events_of inner ++ pop ∷ events_of t)

abbrev pub all_same : Trace → Bool
all_same over = true
all_same (told same t) = same && all_same t
all_same (within step inner t) = all_same inner && all_same t

nil_and :
    (xs ys : List String) (a b : Bool)
    → (xs ≡ []) ↔ (a ≡ true)
    → (ys ≡ []) ↔ (b ≡ true)
    → (xs ++ ys ≡ []) ↔ (a && b ≡ true)
nil_and xs ys true b hx hy = (λ e. hy.0 (append-eq-nil_iff.0 e).1, λ e. rw (hx.1 refl) (hy.1 e))
nil_and xs ys false b hx hy = (λ e. cc (hx.0 (append-eq-nil_iff.0 e).0), λ e. cc e)

module _ (itoa : ℤ → String) where
  -- The paths of the reports of a difference, each that of the steps around it.
  pub differences : CmpPath → Trace → List String
  differences p over = []
  differences p (told true t) = differences p t
  differences p (told false t) = format_path itoa p ∷ differences p t
  differences p (within step inner t) = differences (step ∷ p) inner ++ differences p t

  with_paths : PathReporter itoa → List String → PathReporter itoa
  with_paths r more = record { steps = r.steps; paths = r.paths ++ more }

  run-events_of :
      (t : Trace) (r : PathReporter itoa) (rest : List Event)
      → run itoa r (events_of t ++ rest) ≡ run itoa (with_paths r (differences r.steps t)) rest
  unfolding run handle differences with_paths
  run-events_of over r rest = rw (append-nil r.paths) refl
  run-events_of (told true t) r rest = run-events_of t r rest
  run-events_of (told false t) r rest = run-events_of t _ rest ∙ rw (append_assoc r.paths) refl
  run-events_of (within step inner t) r rest =
      ap (run itoa (handle itoa r (push step)))
        (append_assoc (events_of inner) (pop ∷ events_of t) rest)
      ∙ run-events_of inner _ (pop ∷ (events_of t ++ rest))
      ∙ run-events_of t _ rest
      ∙ rw (append_assoc r.paths) refl

  differences-eq-nil : (p : CmpPath) (t : Trace) → (differences p t ≡ []) ↔ (all_same t ≡ true)
  unfolding differences
  differences-eq-nil p over = (λ _. refl, λ _. refl)
  differences-eq-nil p (told true t) = differences-eq-nil p t
  differences-eq-nil p (told false t) = (λ e. cc e, λ e. cc e)
  differences-eq-nil p (within step inner t) =
      nil_and _ _ _ _ (differences-eq-nil (step ∷ p) inner) (differences-eq-nil p t)

-- What go-cmp documents of a reporter: its calls are bracketed, and Equal holds exactly if no
-- difference was reported.
pub record IsReporting (c : Comparer) : Type 0 where
  pub trace : Value → Value → Trace
  pub bracketed : (x y : Value) → c.events ignores x y ≡ events_of (trace x y)
  pub complete : (x y : Value) → all_same (trace x y) ≡ c.equal ignores x y

module _ (c : Comparer) (reporting : IsReporting c) where
  diff-differences : (x y : Value) → diff c x y ≡ differences c.itoa [] (reporting.trace x y)
  unfolding diff with_paths run
  diff-differences x y =
      let start : PathReporter c.itoa = record { steps = []; paths = [] } in
      let t = reporting.trace x y in
      ap (λ es. (run c.itoa start es).paths)
        (reporting.bracketed x y ∙ sym (append-nil (events_of t)))
      ∙ ap (λ r. r.paths) (run-events_of c.itoa t start [])

  -- With what go-cmp documents of its recursion and its reporter, Diff finds no path exactly if the
  -- remote body agrees with the desired one: the same value at every key and element of the desired
  -- one, and at a key that only the remote one has nothing but a deep zero.
  pub diff-eq-nil : IsComparison c → (x y : Value) → (diff c x y ≡ []) ↔ (agrees x y ≡ true)
  unfolding equal
  diff-eq-nil cmp x y =
      let same : all_same (reporting.trace x y) ≡ agrees x y =
        reporting.complete x y ∙ equal-agrees c cmp x y in
      rw (diff-differences x y, sym same) (differences-eq-nil c.itoa [] (reporting.trace x y))
