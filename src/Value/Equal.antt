-- ===== src/Value/Equal.antt =====
-- `==` on what json.loads gives. The keys of a mapping are distinct, and their order does not count.
use synapse_guardian.Prelude.{
  ℕ, suc, ◌+◌, ◌*◌, Bool, true, false, ◌&&◌, Option, none, some, text_eq, ◌==◌,
}
use synapse_guardian.Value.Int.{ℤ, pos, negsuc}
use synapse_guardian.Value.{
  Value, null, bool, int, float, str, arr, obj, Items, nil, cons, Fields, end, field, lookup,
}

eq_ℤ : ℤ → ℤ → Bool
eq_ℤ (pos m) (pos n) = m == n
eq_ℤ (negsuc m) (negsuc n) = m == n
eq_ℤ _ _ = false

-- in thousandths, as a float
scaled : ℤ → ℤ
scaled (pos n) = pos (n * 1000)
scaled (negsuc n) = negsuc (n * 1000 + 999)

-- the value of a number; a Boolean is one
number : Value → Option ℤ
unfolding scaled
number (bool false) = some (pos 0)
number (bool true) = some (pos 1000)
number (int n) = some (scaled n)
number (float n) = some n
number _ = none

same_number : Option ℤ → Option ℤ → Bool
same_number (some m) (some n) = eq_ℤ m n
same_number _ _ = false

unfoldable pub size : Fields → ℕ
size end = 0
size (field k v rest) = suc (size rest)

unfoldable mutual
  unfolding eq_ℤ number same_number size

  pub value_eq : Value → Value → Bool
  value_eq null null = true
  value_eq (str s) (str t) = text_eq s t
  value_eq (arr xs) (arr ys) = items_eq xs ys
  value_eq (obj m) (obj n) = size m == size n && fields_in m n
  value_eq v w = same_number (number v) (number w)

  pub items_eq : Items → Items → Bool
  items_eq nil nil = true
  items_eq (cons v vs) (cons w ws) = value_eq v w && items_eq vs ws
  items_eq _ _ = false

  pub fields_in : Fields → Fields → Bool
  fields_in end n = true
  fields_in (field k v rest) n =
      elim (lookup k n) [ none ↦ false | some w ↦ value_eq v w ] && fields_in rest n
