-- ===== src/Value.antt =====
-- The dynamic values that the source reads: the content of an event, a room configuration, a
-- published payload, the module's configuration. A `float` is kept in thousandths; `other` is a
-- value of any further type.
pub mod Int
pub mod Equal
use synapse_guardian.Prelude.{
  ℕ, zero, suc, ◌+◌, ◌*◌, Bool, true, false, not, ◌||◌, List, [], ◌∷◌, Option, none, some, leb,
  ◌==◌, if◌then◌else◌, Text, codes, length, text_eq, keep, is_empty,
}
use mathlib.Core.List.{reverse}
use synapse_guardian.Unicode.{Unicode, lstrip}
use Int.{ℤ, pos, negate}

mutual
  pub data Value : Type 0 where
    null : Value
    bool : Bool → Value
    int : ℤ → Value
    float : ℤ → Value
    str : Text → Value
    arr : Items → Value
    obj : Fields → Value
    other : Value

  pub data Items : Type 0 where
    nil : Items
    cons : Value → Items → Items

  pub data Fields : Type 0 where
    end : Fields
    field : Text → Value → Fields → Fields

-- m.get(key), `none` for a missing key
unfoldable pub lookup : Text → Fields → Option Value
lookup key end = none
lookup key (field k v rest) = if text_eq k key then some v else lookup key rest

-- m.get(key)
unfoldable pub get : Text → Fields → Value
get key m = elim (lookup key m) [ none ↦ null | some v ↦ v ]

-- m.get(key, default)
unfoldable pub get_or : Text → Value → Fields → Value
get_or key default m = elim (lookup key m) [ none ↦ default | some v ↦ v ]

-- isinstance(v, str), with the text
unfoldable pub as_text : Value → Option Text
as_text (str s) = some s
as_text _ = none

-- isinstance(v, Mapping), with the mapping
unfoldable pub as_mapping : Value → Option Fields
as_mapping (obj m) = some m
as_mapping _ = none

-- v == text
unfoldable pub is_text : Text → Value → Bool
is_text s (str t) = text_eq t s
is_text s _ = false

-- [x for x in xs if isinstance(x, str)]
unfoldable pub texts : Items → List Text
texts nil = []
texts (cons (str s) xs) = s ∷ texts xs
texts (cons _ xs) = texts xs

unfoldable pub items_of_texts : List Text → Items
items_of_texts [] = nil
items_of_texts (s ∷ ss) = cons (str s) (items_of_texts ss)

-- bool(s) for an optional text
abbrev pub is_set : Option Text → Bool
is_set none = false
is_set (some []) = false
is_set (some (c ∷ s)) = true

-- bool(v)
unfoldable pub truthy : Value → Bool
truthy null = false
truthy (bool b) = b
truthy (int (pos zero)) = false
truthy (float (pos zero)) = false
truthy (str s) = not (is_empty s)
truthy (arr nil) = false
truthy (obj end) = false
truthy _ = true

-- the longest run of digits that `int` reads
abbrev pub max_digits : ℕ
max_digits = 4300

module _ ⦃u : Unicode⦄ where
  is_digit : ℕ → Bool
  is_digit c = elim (u.digit_value c) [ none ↦ false | some d ↦ true ]

  -- Digits, with single underscores between them. `last` says that a digit has just been read.
  digits : Bool → ℕ → Text → Option ℕ
  digits last acc [] = if last then some acc else none
  digits last acc (c ∷ s) = elim (c == b'_') [
    | true ↦ elim last [ true ↦ digits false acc s | false ↦ none ]
    | false ↦ elim (u.digit_value c) [ none ↦ none | some d ↦ digits true (acc * 10 + d) s ]
  ]

  signed : Text → Option ℤ
  signed [] = none
  signed (c ∷ s) =
      if c == b'-'
      then elim (digits false 0 s) [ none ↦ none | some n ↦ some (negate n) ]
      else elim (digits false 0 (if c == b'+' then s else c ∷ s)) [
        | none ↦ none
        | some n ↦ some (pos n)
      ]

  -- s.strip()
  unfoldable pub strip : Text → Text
  strip s = reverse (lstrip (reverse (lstrip s)))

  -- int(s), `none` where it raises ValueError
  unfoldable pub int_of_text : Text → Option ℤ
  unfolding signed digits is_digit strip lstrip
  int_of_text s = if leb (length (keep is_digit s)) max_digits then signed (strip s) else none
