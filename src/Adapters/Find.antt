-- ===== src/Adapters/Find.antt =====
-- internal/resources/adapters/common_find.go. The walk over pages has no bound in the code; it runs
-- on fuel here and answers none when that is used up. An offset is a natural number: it grows by
-- one page for each exchange.
pub mod Pages
pub mod Whole
use signoz_operator.Prelude.{
  ℕ, zero, suc, ◌+◌, String, Bool, true, false, not, ◌&&◌, ◌||◌, Option, none, some, List, [], ◌∷◌,
  ◌++◌, ℤ, leb, length, str_eq, concat, if◌then◌else◌, RawMessage,
}
use signoz_operator.Errors.{Error, Result, ok, err, new, internal}
use signoz_operator.Core.{SigNozResource}
use signoz_operator.Adapters.Exchange.{Request, Exchanged, SigNoz, Talk, exchange}

abbrev pub Matches : Type 0
Matches = List (Option SigNozResource)

abbrev pub find_page_limit : ℕ
find_page_limit = 100

-- The test `n >= total`.
abbrev pub reaches : ℕ → ℤ → Bool
reaches n (ℤ.pos total) = leb total n
reaches n (ℤ.negsuc total) = true

abbrev is_empty : {A : Type 0} → List A → Bool
is_empty [] = true
is_empty (x ∷ xs) = false

abbrev pub get_request : String → Request
get_request path = record { method = "GET"; path = path; body = "" }

-- The matches with one more before them.
unfoldable pub and_match : String → Result Matches → Result Matches
and_match id (ok matches) = ok (some (record { id = some id }) ∷ matches)
and_match id (err e) = err e

module _ {J : Type 0} (c : SigNoz J) where
  text_at : J → String → String
  text_at entry field = c.gjson.text (c.gjson.get entry field)

  -- The loop over the entries of a list, up to the first match with no id.
  unfoldable pub collect : String → String → List J → Result Matches
  unfolding text_at
  collect identity field [] = ok []
  collect identity field (entry ∷ entries) =
      let rest = collect identity field entries in
      if str_eq (text_at entry field) identity
      then if str_eq (text_at entry "id") ""
        then err (new internal "find: list entry carries no id")
        else and_match (text_at entry "id") rest
      else rest

  unfoldable pub fields_of : String → String → Result RawMessage → Result Matches
  fields_of identity field (err e) = err e
  fields_of identity field (ok body) =
      let data_ = c.gjson.get_bytes body "data" in
      if not (c.gjson.exists data_) || not (c.gjson.is_array data_)
      then err (new internal "find: response carries no data list")
      else collect identity field (c.gjson.array data_)

  unfoldable pub find_by_field : Result String → String → String → Talk (Result Matches)
  find_by_field (err e) path field h = (err e, h)
  find_by_field (ok identity) path field h =
      let (body, h') = exchange c (get_request path) h in (fields_of identity field body, h')

  -- What one page leads to.
  pub data Turn : Type 0 where
    fails : Error → Turn
    ends : Matches → Turn
    continues : Matches → Turn

  unfoldable pub after_entries : ℕ → Matches → ℕ → ℤ → Bool → Result Matches → Turn
  after_entries offset matches count total empty (err e) = fails e
  after_entries offset matches count total empty (ok more) =
      if empty || reaches (offset + count) total
      then ends (matches ++ more)
      else continues (matches ++ more)

  unfoldable pub page_turn : String → String → ℕ → Matches → Result RawMessage → Turn
  page_turn identity list_key offset matches (err e) = fails e
  page_turn identity list_key offset matches (ok body) =
      let data_ = c.gjson.get_bytes body "data" in
      let list = c.gjson.get data_ list_key in
      let entries = c.gjson.array list in
      let total = c.gjson.int (c.gjson.get data_ "total") in
      if not (c.gjson.exists data_)
      then fails (new internal "find: response carries no data")
      else if c.gjson.exists list && not (c.gjson.is_array list)
      then fails (new internal (concat ("find: could not parse " ∷ list_key ∷ " list" ∷ [])))
      else after_entries offset matches (length entries) total (is_empty entries)
          (collect identity "name" entries)

  unfoldable pub page_request : String → ℕ → Request
  page_request path offset = get_request (
      concat (
        path
        ∷ "?limit="
        ∷ c.formatting.decimal find_page_limit
        ∷ "&offset="
        ∷ c.formatting.decimal offset
        ∷ []))

  module _ (identity path list_key : String) where
    unfoldable pub walk : ℕ → ℕ → Matches → Talk (Option (Result Matches))
    walk zero offset matches h = (none, h)
    walk (suc n) offset matches h =
        let (body, h') = exchange c (page_request path offset) h in
        elim (page_turn identity list_key offset matches body) [
          | fails e ↦ (some (err e), h')
          | ends all ↦ (some (ok all), h')
          | continues some_ ↦ walk n (offset + find_page_limit) some_ h'
        ]

  unfoldable pub find_by_page : ℕ → Result String → String → String → Talk (Option (Result Matches))
  find_by_page fuel (err e) path list_key h = (some (err e), h)
  find_by_page fuel (ok identity) path list_key h = walk identity path list_key fuel 0 [] h
