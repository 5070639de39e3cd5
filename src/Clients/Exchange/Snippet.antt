-- ===== src/Clients/Exchange/Snippet.antt =====
-- What is quoted of a body, and how much of a body is held.
use signoz_operator.Prelude.{
  ℕ, zero, suc, ◌≤◌, ◌≡◌, ◌≢◌, ◌⊎◌, inl, inr, refl, arith, Bool, true, false, [], ◌∷◌, length,
  if◌then◌else◌,
}
use signoz_operator.Clients.Exchange.{Bytes, up_to, is_break, compacted, snippet}

pub length-up_to : (n : ℕ) (bs : Bytes) → length (up_to n bs) ≤ n
unfolding up_to
length-up_to zero bs = omega arith
length-up_to (suc n) [] = omega arith
length-up_to (suc n) (b ∷ bs) = omega (arith, length-up_to n bs)

length-compacted : (bs : Bytes) → length (compacted bs) ≡ length bs
unfolding compacted
length-compacted [] = refl
length-compacted (b ∷ bs) = omega (arith, length-compacted bs)

-- Every byte is none of 10, 13 and 9, the newline, the carriage return and the tab.
abbrev pub IsOneLine : Bytes → Type 0
IsOneLine [] = Unit {0}
IsOneLine (b ∷ bs) = (b ≢ 10) × (b ≢ 13) × (b ≢ 9) × IsOneLine bs

-- A text quotes the start of a body: it has the body's bytes, but a space, 32, for each byte 10, 13
-- or 9.
abbrev pub Quotes : Bytes → Bytes → Type 0
Quotes [] bs = Unit {0}
Quotes (q ∷ qs) [] = ⊥
Quotes (q ∷ qs) (b ∷ bs) = ((q ≡ b) ⊎ ((q ≡ 32) × ((b ≡ 10) ⊎ (b ≡ 13) ⊎ (b ≡ 9)))) × Quotes qs bs

break_lem : (b : ℕ) → is_break b ≡ true → (b ≡ 10) ⊎ (b ≡ 13) ⊎ (b ≡ 9)
break_lem b h = ground arith

spaced :
    (b : ℕ) (found : Bool)
    → is_break b ≡ found
    → ((if found then 32 else b) ≢ 10)
      × ((if found then 32 else b) ≢ 13)
      × ((if found then 32 else b) ≢ 9)
spaced b true h = (omega arith, omega arith, omega arith)
spaced b false h = ground arith

quoted :
    (b : ℕ) (found : Bool)
    → is_break b ≡ found
    → ((if found then 32 else b) ≡ b)
      ⊎ (((if found then 32 else b) ≡ 32) × ((b ≡ 10) ⊎ (b ≡ 13) ⊎ (b ≡ 9)))
quoted b true h = inr (refl, break_lem b h)
quoted b false h = inl refl

compacted-IsOneLine : (bs : Bytes) → IsOneLine (compacted bs)
unfolding compacted
compacted-IsOneLine [] = tt
compacted-IsOneLine (b ∷ bs) =
    let (no_newline, no_return, no_tab) = spaced b (is_break b) refl in
    (no_newline, no_return, no_tab, compacted-IsOneLine bs)

Quotes-up_to : (n : ℕ) (bs : Bytes) → Quotes (compacted (up_to n bs)) bs
unfolding compacted up_to
Quotes-up_to zero bs = tt
Quotes-up_to (suc n) [] = tt
Quotes-up_to (suc n) (b ∷ bs) = (quoted b (is_break b) refl, Quotes-up_to n bs)

-- What is quoted of a body has at most 200 bytes, none of which is a newline, a carriage return or a
-- tab, whatever the server sent: it is the start of the body with a space for each of these.
pub snippet_bounded :
    (body : Bytes)
    → (length (snippet body) ≤ 200) × IsOneLine (snippet body) × Quotes (snippet body) body
unfolding snippet
snippet_bounded body = (
  omega (arith, length-compacted (up_to 200 body), length-up_to 200 body),
  compacted-IsOneLine (up_to 200 body),
  Quotes-up_to 200 body,
)
