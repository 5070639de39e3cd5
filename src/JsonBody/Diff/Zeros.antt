-- ===== src/JsonBody/Diff/Zeros.antt =====
-- What the deep zeros are: the values that hold nothing but defaults.
use signoz_operator.Prelude.{
  ℕ, suc, ◌+◌, ◌==◌, ◌≡◌, refl, arith, true, false, str_eq, if◌then◌else◌,
}
use signoz_operator.JsonBody.Value.{
  Value, null, bool, number, text, array, object, Items, nil, item, Fields, end, field,
}
use signoz_operator.JsonBody.Diff.{is_deep_zero, all_deep_zero}

-- How much a value holds besides defaults: true, a number but 0, a text that is not empty and an
-- element of an array, whatever it is, count one each; an object counts what its fields hold.
unfoldable mutual
  pub held : Value → ℕ
  held null = 0
  held (bool true) = 1
  held (bool false) = 0
  held (number n) = if str_eq n "0" then 0 else 1
  held (text s) = if str_eq s "" then 0 else 1
  held (array vs) = count vs
  held (object fs) = held_by fs

  pub held_by : Fields → ℕ
  held_by end = 0
  held_by (field k v fs) = held v + held_by fs

  pub count : Items → ℕ
  count nil = 0
  count (item v vs) = suc (count vs)

mutual
  unfolding is_deep_zero held

  pub is_deep_zero-held : (v : Value) → is_deep_zero v ≡ (held v == 0)
  is_deep_zero-held null = refl
  is_deep_zero-held (bool true) = refl
  is_deep_zero-held (bool false) = refl
  is_deep_zero-held (number n) = ground arith
  is_deep_zero-held (text s) = ground arith
  is_deep_zero-held (array nil) = refl
  is_deep_zero-held (array (item v vs)) = ground arith
  is_deep_zero-held (object fs) = all_deep_zero-held_by fs

  all_deep_zero-held_by : (fs : Fields) → all_deep_zero fs ≡ (held_by fs == 0)
  all_deep_zero-held_by end = refl
  all_deep_zero-held_by (field k v fs) =
      ground (arith, is_deep_zero-held v, all_deep_zero-held_by fs)
