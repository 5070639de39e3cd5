-- ===== src/JsonBody/Diff/Agrees.antt =====
-- What the comparison means: the remote body agrees with the desired one on every key that this
-- has, and what only the remote one has is zero.
use signoz_operator.Prelude.{
  ℕ, suc, ◌==◌, String, ◌≡◌, refl, arith, ◌∙◌, Bool, true, false, not, ◌&&◌, ◌||◌, Option, none,
  some, [], ◌∷◌, ℤ, str_eq,
}
use signoz_operator.JsonBody.Value.{
  Value, null, bool, number, text, array, object, Items, nil, item, Fields, end, field, lookup,
}
use signoz_operator.JsonBody.Diff.{CmpPath, map_index, slice_index, ignores, Comparer, equal}
use signoz_operator.JsonBody.Diff.Zeros.{held, is_deep_zero-held}

abbrev same_bool : Bool → Bool → Bool
same_bool true b = b
same_bool false b = not b

abbrev is_present : {A : Type 0} → Option A → Bool
is_present none = false
is_present (some a) = true

-- The keys of `gs` that `fs` lacks hold nothing but defaults.
unfoldable pub rest_is_zero : Fields → Fields → Bool
rest_is_zero fs end = true
rest_is_zero fs (field k w gs) = (is_present (lookup k fs) || held w == 0) && rest_is_zero fs gs

unfoldable mutual
  pub agrees : Value → Value → Bool
  agrees null null = true
  agrees (bool a) (bool b) = same_bool a b
  agrees (number a) (number b) = str_eq a b
  agrees (text a) (text b) = str_eq a b
  agrees (array xs) (array ys) = items_agree xs ys
  agrees (object fs) (object gs) = fields_agree fs gs && rest_is_zero fs gs
  agrees _ _ = false

  pub items_agree : Items → Items → Bool
  items_agree nil nil = true
  items_agree (item x xs) (item y ys) = agrees x y && items_agree xs ys
  items_agree _ _ = false

  pub fields_agree : Fields → Fields → Bool
  fields_agree end gs = true
  fields_agree (field k v fs) gs =
      elim (lookup k gs) [ none ↦ false | some w ↦ agrees v w ] && fields_agree fs gs

-- What go-cmp documents of its recursion, at the filter of this code: an entry of a map is ignored
-- if the filter says so, and otherwise is on both sides and compares equal; slices are of one
-- length and compare equal element by element; all else is equal if it is the same.
module _ (r : CmpPath → Value → Value → Bool) (p : CmpPath) where
  abbrev pub entry_equal : String → Option Value → Option Value → Bool
  entry_equal k (some v) (some w) =
      ignores (map_index k (some v) (some w) ∷ p) || r (map_index k (some v) (some w) ∷ p) v w
  entry_equal k v w = ignores (map_index k v w ∷ p)

  abbrev pub left_entries_equal : Fields → Fields → Bool
  left_entries_equal end gs = true
  left_entries_equal (field k v fs) gs =
      entry_equal k (some v) (lookup k gs) && left_entries_equal fs gs

  -- The entries of the right side alone.
  abbrev pub right_entries_equal : Fields → Fields → Bool
  right_entries_equal fs end = true
  right_entries_equal fs (field k w gs) =
      elim (lookup k fs) [ some v ↦ true | none ↦ entry_equal k none (some w) ]
      && right_entries_equal fs gs

  abbrev pub elements_equal : ℕ → Items → Items → Bool
  elements_equal i nil nil = true
  elements_equal i (item x xs) (item y ys) =
      r (slice_index (ℤ.pos i) (ℤ.pos i) (ℤ.pos i) ∷ p) x y && elements_equal (suc i) xs ys
  elements_equal i xs ys = false

  abbrev pub equal_once : Value → Value → Bool
  equal_once null null = true
  equal_once (bool a) (bool b) = same_bool a b
  equal_once (number a) (number b) = str_eq a b
  equal_once (text a) (text b) = str_eq a b
  equal_once (array xs) (array ys) = elements_equal 0 xs ys
  equal_once (object fs) (object gs) = left_entries_equal fs gs && right_entries_equal fs gs
  equal_once _ _ = false

pub record IsComparison (c : Comparer) : Type 0 where
  pub at : CmpPath → Value → Value → Bool
  pub equal_at_root : (x y : Value) → c.equal ignores x y ≡ at [] x y
  pub at_once : (p : CmpPath) (x y : Value) → at p x y ≡ equal_once at p x y

module _ (c : Comparer) (cmp : IsComparison c) where
  right_lem :
      (p : CmpPath) (fs gs : Fields) → right_entries_equal cmp.at p fs gs ≡ rest_is_zero fs gs
  unfolding rest_is_zero ignores
  right_lem p fs end = refl
  right_lem p fs (field k w gs) = ground (arith, is_deep_zero-held w, right_lem p fs gs)

  entry_lem :
      (p : CmpPath) (k : String) (v : Value) (o : Option Value)
      → ((q : CmpPath) (w : Value) → cmp.at q v w ≡ agrees v w)
      → entry_equal cmp.at p k (some v) o ≡ elim o [ none ↦ false | some w ↦ agrees v w ]
  unfolding ignores
  entry_lem p k v none ih = refl
  entry_lem p k v (some w) ih = ih (map_index k (some v) (some w) ∷ p) w

  mutual
    unfolding agrees

    at-agrees : (p : CmpPath) (x y : Value) → cmp.at p x y ≡ agrees x y
    at-agrees p null null = cmp.at_once p null null
    at-agrees p null (bool b) = cmp.at_once p null (bool b)
    at-agrees p null (number b) = cmp.at_once p null (number b)
    at-agrees p null (text b) = cmp.at_once p null (text b)
    at-agrees p null (array b) = cmp.at_once p null (array b)
    at-agrees p null (object b) = cmp.at_once p null (object b)
    at-agrees p (bool a) null = cmp.at_once p (bool a) null
    at-agrees p (bool a) (bool b) = cmp.at_once p (bool a) (bool b)
    at-agrees p (bool a) (number b) = cmp.at_once p (bool a) (number b)
    at-agrees p (bool a) (text b) = cmp.at_once p (bool a) (text b)
    at-agrees p (bool a) (array b) = cmp.at_once p (bool a) (array b)
    at-agrees p (bool a) (object b) = cmp.at_once p (bool a) (object b)
    at-agrees p (number a) null = cmp.at_once p (number a) null
    at-agrees p (number a) (bool b) = cmp.at_once p (number a) (bool b)
    at-agrees p (number a) (number b) = cmp.at_once p (number a) (number b)
    at-agrees p (number a) (text b) = cmp.at_once p (number a) (text b)
    at-agrees p (number a) (array b) = cmp.at_once p (number a) (array b)
    at-agrees p (number a) (object b) = cmp.at_once p (number a) (object b)
    at-agrees p (text a) null = cmp.at_once p (text a) null
    at-agrees p (text a) (bool b) = cmp.at_once p (text a) (bool b)
    at-agrees p (text a) (number b) = cmp.at_once p (text a) (number b)
    at-agrees p (text a) (text b) = cmp.at_once p (text a) (text b)
    at-agrees p (text a) (array b) = cmp.at_once p (text a) (array b)
    at-agrees p (text a) (object b) = cmp.at_once p (text a) (object b)
    at-agrees p (array a) null = cmp.at_once p (array a) null
    at-agrees p (array a) (bool b) = cmp.at_once p (array a) (bool b)
    at-agrees p (array a) (number b) = cmp.at_once p (array a) (number b)
    at-agrees p (array a) (text b) = cmp.at_once p (array a) (text b)
    at-agrees p (array a) (array b) = cmp.at_once p (array a) (array b) ∙ elements_equal_lem p 0 a b
    at-agrees p (array a) (object b) = cmp.at_once p (array a) (object b)
    at-agrees p (object a) null = cmp.at_once p (object a) null
    at-agrees p (object a) (bool b) = cmp.at_once p (object a) (bool b)
    at-agrees p (object a) (number b) = cmp.at_once p (object a) (number b)
    at-agrees p (object a) (text b) = cmp.at_once p (object a) (text b)
    at-agrees p (object a) (array b) = cmp.at_once p (object a) (array b)
    at-agrees p (object a) (object b) =
        cmp.at_once p (object a) (object b) ∙ rw (left_entries_lem p a b, right_lem p a b) refl

    elements_equal_lem :
        (p : CmpPath) (i : ℕ) (xs ys : Items) → elements_equal cmp.at p i xs ys ≡ items_agree xs ys
    elements_equal_lem p i nil nil = refl
    elements_equal_lem p i nil (item y ys) = refl
    elements_equal_lem p i (item x xs) nil = refl
    elements_equal_lem p i (item x xs) (item y ys) =
        rw
          (
            at-agrees (slice_index (ℤ.pos i) (ℤ.pos i) (ℤ.pos i) ∷ p) x y,
            elements_equal_lem p (suc i) xs ys,
          )
          refl

    left_entries_lem :
        (p : CmpPath) (fs gs : Fields) → left_entries_equal cmp.at p fs gs ≡ fields_agree fs gs
    left_entries_lem p end gs = refl
    left_entries_lem p (field k v fs) gs =
        rw (entry_lem p k v (lookup k gs) (λ q w. at-agrees q v w), left_entries_lem p fs gs) refl

  -- With what go-cmp documents of its recursion, Equal holds exactly if the remote body agrees with
  -- the desired one: the same value at every key and element of the desired one, and at a key that
  -- only the remote one has nothing but a deep zero.
  pub equal-agrees : (x y : Value) → equal c x y ≡ agrees x y
  unfolding equal
  equal-agrees x y = cmp.equal_at_root x y ∙ at-agrees [] x y
