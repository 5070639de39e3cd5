-- ===== src/Adapters/Find/Whole.antt =====
-- Over a list that stays as it is, the walk over pages finds what one look at the whole list does.
use signoz_operator.Prelude.{
  and_false, ℕ, zero, suc, ◌+◌, ◌*◌, ◌≤◌, ◌<◌, ◌≡◌, refl, arith, ap, sym, ◌∙◌, String, Bool, true,
  false, Option, some, List, [], ◌∷◌, ◌++◌, ℤ, leb, length, str_eq, RawMessage, Bool-cases, inl,
  inr, take, drop, append-take-drop, drop-drop, length-drop, length-take_le, length-take,
}
use mathlib.Core.List.{append_assoc}
use signoz_operator.Errors.{Result, ok, err}
use signoz_operator.Adapters.Exchange.{Exchanged, SigNoz, exchange}
use signoz_operator.Adapters.Find.{
  Matches, collect, and_match, Turn, fails, ends, continues, after_entries, page_turn, page_request,
  walk, find_by_page, find_page_limit, is_empty, text_at,
}

-- Matches before others, up to an error.
joined : Matches → Result Matches → Result Matches
joined ms (ok more) = ok (ms ++ more)
joined ms (err e) = err e

-- What was found, then what comes after it.
both : Result Matches → Result Matches → Result Matches
both (ok ms) r = joined ms r
both (err e) r = err e

joined_none : (r : Result Matches) → joined [] r ≡ r
unfolding joined
joined_none (ok more) = refl
joined_none (err e) = refl

and_match-both :
    (id : String) (r q : Result Matches) → and_match id (both r q) ≡ both (and_match id r) q
unfolding and_match both joined
and_match-both id (ok ms) (ok more) = refl
and_match-both id (ok ms) (err e) = refl
and_match-both id (err e) q = refl

both_assoc : (ms xs : Matches) (r : Result Matches) → joined (ms ++ xs) r ≡ joined ms (joined xs r)
unfolding joined
both_assoc ms xs (ok more) = ap ok (append_assoc ms xs more)
both_assoc ms xs (err e) = refl

module _ {J : Type 0} (c : SigNoz J) where
  collect-append :
      (identity field : String) (xs ys : List J)
      → collect c identity field (xs ++ ys)
        ≡ both (collect c identity field xs) (collect c identity field ys)
  unfolding collect both
  collect-append identity field [] ys = sym (joined_none _)
  collect-append identity field (x ∷ xs) ys =
      elim (Bool-cases (str_eq (text_at c x field) identity)) [
        | inl match ↦ elim (Bool-cases (str_eq (text_at c x "id") "")) [
          | inl no_id ↦ rw (match, no_id) refl
          | inr id ↦
              rw (match, id)
                (ap (and_match (text_at c x "id")) (collect-append identity field xs ys)
                  ∙ and_match-both (text_at c x "id") _ _)
        ]
        | inr other ↦ rw other (collect-append identity field xs ys)
      ]

  -- The body is the page of the list at an offset.
  pub record IsPage (list_key : String) (things : List J) (offset : ℕ) (body : RawMessage)
      : Type 0 where
    pub data_exists : c.gjson.exists (c.gjson.get_bytes body "data") ≡ true
    pub list_is_array :
        c.gjson.is_array (c.gjson.get (c.gjson.get_bytes body "data") list_key) ≡ true
    pub entries :
        c.gjson.array (c.gjson.get (c.gjson.get_bytes body "data") list_key)
        ≡ take find_page_limit (drop offset things)
    pub total :
        c.gjson.int (c.gjson.get (c.gjson.get_bytes body "data") "total") ≡ ℤ.pos (length things)

  -- The list stays as it is, and each exchange for a page of it is answered by that page.
  pub record Serves (path list_key : String) (things : List J) : Type 0 where
    pub body : ℕ → List Exchanged → RawMessage
    pub answers :
        (offset : ℕ) (h : List Exchanged)
        → (exchange c (page_request c path offset) h).0 ≡ ok (body offset h)
    pub is_page : (offset : ℕ) (h : List Exchanged) → IsPage list_key things offset (body offset h)

  not_empty : (xs : List J) → 0 < length xs → is_empty xs ≡ false
  not_empty [] h = absurd (omega (arith, h))
  not_empty (x ∷ xs) h = refl

  finished : Matches → Result Matches → Turn c
  finished ms (ok more) = ends (ms ++ more)
  finished ms (err e) = fails e

  onward : Matches → Result Matches → Turn c
  onward ms (ok more) = continues (ms ++ more)
  onward ms (err e) = fails e

  after_entries-finished :
      (offset : ℕ) (ms : Matches) (count total : ℕ) (empty : Bool) (r : Result Matches)
      → leb total (offset + count) ≡ true
      → after_entries c offset ms count (ℤ.pos total) empty r ≡ finished ms r
  unfolding after_entries finished
  after_entries-finished offset ms count total true (ok more) h = refl
  after_entries-finished offset ms count total false (ok more) h = rw h refl
  after_entries-finished offset ms count total empty (err e) h = refl

  after_entries-onward :
      (offset : ℕ) (ms : Matches) (count total : ℕ) (r : Result Matches)
      → leb total (offset + count) ≡ false
      → after_entries c offset ms count (ℤ.pos total) false r ≡ onward ms r
  unfolding after_entries onward
  after_entries-onward offset ms count total (ok more) h = rw h refl
  after_entries-onward offset ms count total (err e) h = refl

  module _ (path list_key identity : String) (things : List J)
      (serves : Serves path list_key things) where
    abbrev turn_at : ℕ → Matches → List Exchanged → Turn c
    turn_at offset ms h =
        page_turn c identity list_key offset ms (exchange c (page_request c path offset) h).0

    abbrev page_at : ℕ → List J
    page_at offset = take find_page_limit (drop offset things)

    turn_lem :
        (offset : ℕ) (ms : Matches) (h : List Exchanged)
        → turn_at offset ms h
          ≡ after_entries c offset ms
              (length (page_at offset))
              (ℤ.pos (length things))
              (is_empty (page_at offset))
              (collect c identity "name" (page_at offset))
    unfolding page_turn
    turn_lem offset ms h =
        let p = serves.is_page offset h in
        rw (serves.answers offset h, p.data_exists, p.list_is_array, and_false, p.entries, p.total)
          refl

    whole : ℕ → Matches → Option (Result Matches)
    unfolding joined
    whole offset ms = some (joined ms (collect c identity "name" (drop offset things)))

    walk-finished :
        (n offset : ℕ) (ms : Matches) (h : List Exchanged) (r : Result Matches)
        → turn_at offset ms h ≡ finished ms r
        → (walk c identity path list_key (suc n) offset ms h).0 ≡ some (joined ms r)
    unfolding walk finished joined
    walk-finished n offset ms h (ok more) turn = rw (turn, walk) refl
    walk-finished n offset ms h (err e) turn = rw (turn, walk) refl

    walk-onward :
        (n offset : ℕ) (ms : Matches) (h : List Exchanged) (r : Result Matches)
        (rest : Result Matches)
        → turn_at offset ms h ≡ onward ms r
        → ((ns : Matches) (h' : List Exchanged)
            → (walk c identity path list_key n (offset + find_page_limit) ns h').0
              ≡ some (joined ns rest))
        → (walk c identity path list_key (suc n) offset ms h).0 ≡ some (joined ms (both r rest))
    unfolding walk onward both joined
    walk-onward n offset ms h (ok more) rest turn later =
        rw (turn, walk) (later (ms ++ more) _ ∙ ap some (both_assoc ms more rest))
    walk-onward n offset ms h (err e) rest turn later = rw (turn, walk) refl

    -- The last page: it is the rest of the list.
    walk_last :
        (n offset : ℕ) (ms : Matches) (h : List Exchanged)
        → offset ≤ length things
        → length (drop offset things) ≤ find_page_limit
        → (walk c identity path list_key (suc n) offset ms h).0 ≡ whole offset ms
    unfolding whole
    walk_last n offset ms h le short =
        let rest : page_at offset ≡ drop offset things = length-take_le _ _ short in
        walk-finished n offset ms h _ (
          turn_lem offset ms h
          ∙ rw rest (
              after_entries-finished offset ms _ (length things) _ _
                (ground (arith, length-drop offset things le))))

    -- A page that is full, and that another one follows.
    full_page :
        (offset : ℕ) (ms : Matches) (h : List Exchanged)
        → offset ≤ length things
        → (find_page_limit < length (drop offset things))
        → turn_at offset ms h ≡ onward ms (collect c identity "name" (page_at offset))
    full_page offset ms h le long =
        let full : length (page_at offset) ≡ find_page_limit =
          length-take find_page_limit (drop offset things) (omega (arith, long)) in
        turn_lem offset ms h
        ∙ rw (full, not_empty (page_at offset) (omega (arith, full)))
            (after_entries-onward offset ms find_page_limit (length things) _
              (ground (arith, length-drop offset things le, long)))

    whole_onward :
        (offset : ℕ) (ms : Matches)
        → joined ms (
            both
              (collect c identity "name" (page_at offset))
              (collect c identity "name" (drop (offset + find_page_limit) things)))
          ≡ joined ms (collect c identity "name" (drop offset things))
    whole_onward offset ms = ap (joined ms) (
        rw (sym (drop-drop offset find_page_limit things)) (
          sym (collect-append identity "name" (page_at offset) _)
          ∙ ap (collect c identity "name") (append-take-drop find_page_limit (drop offset things))))

    walk-whole :
        (n offset : ℕ) (ms : Matches) (h : List Exchanged)
        → offset ≤ length things
        → length things ≤ offset + find_page_limit * n
        → (walk c identity path list_key (suc n) offset ms h).0 ≡ whole offset ms
    unfolding whole
    walk-whole zero offset ms h le enough =
        walk_last zero offset ms h le (omega (arith, length-drop offset things le, enough))
    walk-whole (suc n) offset ms h le enough =
        elim (Bool-cases (leb (length (drop offset things)) find_page_limit)) [
          | inl short ↦ walk_last (suc n) offset ms h le (ground (arith, short))
          | inr long ↦
              let long' : find_page_limit < length (drop offset things) = ground (arith, long) in
              let left : length (drop offset things) + offset ≡ length things =
                length-drop offset things le in
              walk-onward (suc n) offset ms h _ _ (full_page offset ms h le long') (λ ns h'.
                walk-whole n (offset + find_page_limit) ns h' (omega (arith, long', left))
                  (omega (arith, enough)))
              ∙ ap some (whole_onward offset ms)
        ]

  -- While the list stays as it is and each page of it is served, the walk over pages answers what
  -- one look at the whole list does: the matches of all pages in their order, or the error of the
  -- first match with no id. The exchanges that cover the list page by page, and one more, are
  -- enough for it.
  pub find_by_page-collect :
      (identity path list_key : String) (things : List J) (n : ℕ) (h : List Exchanged)
      → Serves path list_key things
      → length things ≤ find_page_limit * n
      → (find_by_page c (suc n) (ok identity) path list_key h).0
        ≡ some (collect c identity "name" things)
  unfolding find_by_page drop whole
  find_by_page-collect identity path list_key things n h serves enough =
      walk-whole path list_key identity things serves n 0 [] h (omega arith) (omega (arith, enough))
      ∙ ap some (joined_none _)
