-- ===== src/Objects/Compare.antt =====
-- An object in sync: what Compare finds of it, and what a pass over it calls.
use signoz_operator.Prelude.{
  ℕ, String, ◌≡◌, refl, Bool, true, false, Option, [], ◌∷◌, RawMessage, str_eq, eq_refl, not, ◌&&◌,
}
use signoz_operator.Errors.{Result, ok, err}
use signoz_operator.Clients.{Client}
use signoz_operator.Resources.Object.{CompareResult}
use signoz_operator.JsonBody.Value.{JsonLibrary}
use signoz_operator.JsonBody.Diff.{Comparer}
use signoz_operator.JsonBody.Diff.Agrees.{IsComparison, agrees}
use signoz_operator.JsonBody.Diff.Bracketed.{IsReporting, diff-eq-nil}
use signoz_operator.JsonBody.Paths.Common.{intersect_none}
use signoz_operator.Objects.{Generated, Template, object, body, compare_of}
use signoz_operator.Reconciler.Pass.{Context, CommonReconciler, Pass, read}
use signoz_operator.Reconciler.Calls.{adapter_read, report}
use signoz_operator.Core.{SigNozResource}
use signoz_operator.Reconciler.Existing.{
  on_existing_object, after_read, after_compare, is_changed, settle,
}

only_empty : (b : Bool) → not (true && not (not b && not true)) ≡ false
only_empty true = refl
only_empty false = refl

abbrev pub no_difference : CompareResult
no_difference = record { updatable_fields = []; immutable_fields = [] }

-- What the remote answer holds and what the object wants.
abbrev pub InSync : {J : Type 0} → JsonLibrary J → Result RawMessage → RawMessage → Type 0
InSync lib (ok body) response =
    agrees (lib.value (lib.parse_bytes body)) (lib.value (lib.gjson.get_bytes response "data"))
    ≡ true
InSync lib (err e) response = ⊥

module _ {J S : Type 0} (lib : JsonLibrary J) (cmp : Comparer)
    (marshal_spec : S → Result RawMessage) (g : Generated) (comparison : IsComparison cmp)
    (reporting : IsReporting cmp) where
  compare_of-InSync :
      (wanted : Result RawMessage) (response : RawMessage)
      → InSync lib wanted response
      → compare_of lib cmp marshal_spec g response wanted ≡ ok no_difference
  unfolding compare_of
  compare_of-InSync (err e) response h = absurd h
  compare_of-InSync (ok body) response h =
      rw
        (
          (diff-eq-nil cmp reporting comparison _ _).1 h,
          intersect_none g.updatable_fields,
          intersect_none g.immutable_fields,
        )
        refl

  module _ (rec : CommonReconciler (Template S)) (ctx : Context) (c : Client) (hash : String)
      (s : Pass (Template S)) where
    unchanged :
        (observed : String) → observed ≡ hash → is_changed observed no_difference hash ≡ false
    unfolding is_changed
    unchanged observed e = rw (e, eq_refl hash) (only_empty (str_eq hash ""))

    after_compare-calls :
        (generation : ℕ) (resource : Option SigNozResource) (q : Pass (Template S))
        → is_changed q.obj.status.observed_hash no_difference hash ≡ false
        → (after_compare rec ctx c generation resource hash (ok no_difference) q).1.calls ≡ q.calls
    unfolding after_compare settle report
    after_compare-calls generation resource q same = rw same refl

    after_read-calls :
        (generation : ℕ) (resource : Option SigNozResource) (response : RawMessage)
        (q : Pass (Template S))
        → rec.kind.compare q.obj.template response ≡ ok no_difference
        → is_changed q.obj.status.observed_hash no_difference hash ≡ false
        → (after_read rec ctx c generation resource hash (ok response) q).1.calls ≡ q.calls
    unfolding after_read
    after_read-calls generation resource response q e same =
        rw e (after_compare-calls generation resource q same)

    -- Over an object of which SigNoz answers what it wants, up to zeros that only the answer has, and
    -- whose observed hash is that of its body, onExistingObject makes one call, the read: it updates
    -- nothing.
    pub on_existing_object-InSync :
        (response : RawMessage)
        → rec.kind.compare ≡ (object lib cmp marshal_spec g).compare
        → rec.adapter.read s.calls ctx c s.obj s.obj.status.signoz_resource ≡ ok response
        → InSync lib (body lib cmp marshal_spec s.obj.template) response
        → s.obj.status.observed_hash ≡ hash
        → (on_existing_object rec ctx c hash s).1.calls
          ≡ read ctx c s.obj s.obj.status.signoz_resource (ok response) ∷ s.calls
    unfolding on_existing_object adapter_read
    on_existing_object-InSync response kind answer synced observed = rw answer (
        after_read-calls s.obj.meta.generation s.obj.status.signoz_resource response _
          (rw kind (compare_of-InSync (body lib cmp marshal_spec s.obj.template) response synced))
          (unchanged s.obj.status.observed_hash observed))
