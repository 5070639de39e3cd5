-- ===== src/Adapters/Find/Pages.antt =====
-- The walk over pages ends, and over a list that stays as it is it finds what one look at the whole
-- list does.
use signoz_operator.Prelude.{
  ℕ, zero, suc, ◌+◌, ◌*◌, ◌≤◌, ◌≡◌, refl, arith, String, Bool, true, false, not, ◌&&◌, Option, none,
  some, List, [], ℤ, RawMessage, Bool-cases, inl, inr, ◌⊎◌,
}
use signoz_operator.Errors.{Error, Result, ok, err}
use signoz_operator.Adapters.Exchange.{
  Request, Response, Exchanged, SigNoz, accepted, exchange, of_status,
}
use signoz_operator.Adapters.Find.{
  Matches, reaches, Turn, fails, ends, continues, after_entries, page_turn, page_request, walk,
  find_page_limit, find_by_page,
}

module _ {J : Type 0} (c : SigNoz J) where
  -- The total that a body claims.
  abbrev pub total_of : RawMessage → ℤ
  total_of body = c.gjson.int (c.gjson.get (c.gjson.get_bytes body "data") "total")

  abbrev pub is_some : {A : Type 0} → Option A → Bool
  is_some none = false
  is_some (some a) = true

  reaches_more : (n m : ℕ) (total : ℤ) → reaches (n + m) total ≡ false → reaches n total ≡ false
  reaches_more n m (ℤ.pos t) h = ground (arith, h)
  reaches_more n m (ℤ.negsuc t) h = cc h

  after_entries-continues :
      (offset : ℕ) (ms ns : Matches) (count : ℕ) (total : ℤ) (empty : Bool) (r : Result Matches)
      → after_entries c offset ms count total empty r ≡ continues ns
      → reaches offset total ≡ false
  unfolding after_entries
  after_entries-continues offset ms ns count total empty (err e) h = cc h
  after_entries-continues offset ms ns count total true (ok more) h = cc h
  after_entries-continues offset ms ns count total false (ok more) h =
      elim (Bool-cases (reaches (offset + count) total)) [
        | inl there ↦ cc (rw there at h)
        | inr before ↦ reaches_more offset count total before
      ]

  page_turn-continues :
      (identity list_key : String) (offset : ℕ) (ms ns : Matches) (body : RawMessage)
      → page_turn c identity list_key offset ms (ok body) ≡ continues ns
      → reaches offset (total_of body) ≡ false
  unfolding page_turn
  page_turn-continues identity list_key offset ms ns body h =
      let data_ = c.gjson.get_bytes body "data" in
      let list = c.gjson.get data_ list_key in
      elim (Bool-cases (c.gjson.exists data_)) [
        | inl there ↦ elim (Bool-cases (c.gjson.exists list && not (c.gjson.is_array list))) [
          | inl odd ↦ cc (rw (there, odd) at h)
          | inr fine ↦ after_entries-continues offset ms ns _ _ _ _ (rw (there, fine) at h)
        ]
        | inr absent ↦ cc (rw absent at h)
      ]

  Turn-cases :
      (t : Turn c)
      → ((e : Error) × (t ≡ fails e))
        ⊎ (((ms : Matches) × (t ≡ ends ms)) ⊎ ((ms : Matches) × (t ≡ continues ms)))
  Turn-cases (fails e) = inl (e, refl)
  Turn-cases (ends ms) = inr (inl (ms, refl))
  Turn-cases (continues ms) = inr (inr (ms, refl))

  -- No body claims a total over the bound.
  abbrev pub IsBounded : ℕ → Type 0
  IsBounded bound =
      (h : List Exchanged) (request : Request) (r : Response)
      → c.exchange h request ≡ ok r
      → reaches bound (total_of r.body) ≡ true

  within :
      (bound offset : ℕ) (total : ℤ)
      → reaches bound total ≡ true
      → bound ≤ offset
      → reaches offset total ≡ true
  within bound offset (ℤ.pos t) h le = ground (arith, h, le)
  within bound offset (ℤ.negsuc t) h le = refl

  module _ (bound : ℕ) (bounded : IsBounded bound) (identity path list_key : String) where
    fails_ends :
        (offset : ℕ) (ms ns : Matches) (e : Error)
        → page_turn c identity list_key offset ms (err e) ≡ continues ns
        → ⊥
    unfolding page_turn
    fails_ends offset ms ns e turn = cc turn

    status_below :
        (offset : ℕ) (ms ns : Matches) (body : RawMessage) (failure : Option Error)
        → page_turn c identity list_key offset ms (of_status c body failure) ≡ continues ns
        → reaches bound (total_of body) ≡ true
        → bound ≤ offset
        → ⊥
    unfolding of_status
    status_below offset ms ns body none turn small le = cc (
      within bound offset _ small le,
      page_turn-continues identity list_key offset ms ns body turn,
    )
    status_below offset ms ns body (some e) turn small le = fails_ends offset ms ns e turn

    answer_below :
        (offset : ℕ) (ms ns : Matches) (answer : Result Response)
        → page_turn c identity list_key offset ms (accepted c answer) ≡ continues ns
        → ((r : Response) → answer ≡ ok r → reaches bound (total_of r.body) ≡ true)
        → bound ≤ offset
        → ⊥
    unfolding accepted
    answer_below offset ms ns (ok r) turn small le =
        status_below offset ms ns _ _ turn (small r refl) le
    answer_below offset ms ns (err e) turn small le = fails_ends offset ms ns e turn

    -- A page that is followed by another one starts below the bound.
    continues_below :
        (offset : ℕ) (ms ns : Matches) (h : List Exchanged)
        → page_turn c identity list_key offset ms (exchange c (page_request c path offset) h).0
          ≡ continues ns
        → bound ≤ offset
        → ⊥
    unfolding exchange
    continues_below offset ms ns h turn le =
        answer_below offset ms ns _ turn (bounded h (page_request c path offset)) le

    walk_ends :
        (n offset : ℕ) (ms : Matches) (h : List Exchanged)
        → bound ≤ offset + find_page_limit * n
        → is_some (walk c identity path list_key (suc n) offset ms h).0 ≡ true
    unfolding walk
    walk_ends zero offset ms h le =
        elim (Turn-cases
          (page_turn c identity list_key offset ms (exchange c (page_request c path offset) h).0)) [
            | inl (e, turn) ↦ rw (turn, is_some) refl
            | inr (inl (ends_, turn)) ↦ rw (turn, is_some) refl
            | inr (inr (ns, turn)) ↦
                absurd (continues_below offset ms ns h turn (omega (arith, le)))
          ]
    walk_ends (suc n) offset ms h le =
        elim (Turn-cases
          (page_turn c identity list_key offset ms (exchange c (page_request c path offset) h).0)) [
            | inl (e, turn) ↦ rw (turn, is_some) refl
            | inr (inl (ends_, turn)) ↦ rw (turn, is_some) refl
            | inr (inr (ns, turn)) ↦
                rw (turn, is_some) (walk_ends n (offset + find_page_limit) ns _ (omega (arith, le)))
          ]

  -- The walk over pages ends: with no body claiming a total over `bound`, that many exchanges are
  -- enough which cover the bound page by page, and one more, whatever the answers are otherwise.
  pub find_by_page_ends :
      (bound n : ℕ) (identity : Result String) (path list_key : String) (h : List Exchanged)
      → IsBounded bound
      → bound ≤ find_page_limit * n
      → is_some (find_by_page c (suc n) identity path list_key h).0 ≡ true
  unfolding find_by_page
  find_by_page_ends bound n (err e) path list_key h bounded le = refl
  find_by_page_ends bound n (ok identity) path list_key h bounded le =
      walk_ends bound bounded identity path list_key n 0 [] h (omega (arith, le))
