-- ===== src/TextSet.antt =====
-- Python's `set` and `frozenset` of texts. The source reads such a set by membership and by
-- `sorted` only, so a set is kept as the list of its elements in increasing order.
pub mod Order
use synapse_guardian.Prelude.{
  ◌≡◌, refl, Bool, true, false, ◌&&◌, ◌||◌, List, [], ◌∷◌, ◌++◌, arith, ltb, ◌==◌, if◌then◌else◌,
  Text, text_eq, text_eq_iff,
}

abbrev pub TextSet : Type 0
TextSet = List Text

-- a < b on texts, by code points
unfoldable pub text_ltb : Text → Text → Bool
text_ltb [] [] = false
text_ltb [] (d ∷ t) = true
text_ltb (c ∷ s) [] = false
text_ltb (c ∷ s) (d ∷ t) = ltb c d || (c == d && text_ltb s t)

-- x in s
unfoldable pub member : Text → TextSet → Bool
member x [] = false
member x (y ∷ s) = text_eq x y || member x s

-- s.add(x)
unfoldable pub insert : Text → TextSet → TextSet
unfolding text_ltb text_eq
insert x [] = x ∷ []
insert x (y ∷ s) =
    let rest = insert x s in
    if text_eq x y then y ∷ s else if text_ltb x y then x ∷ y ∷ s else y ∷ rest

-- s.discard(x)
unfoldable pub discard : Text → TextSet → TextSet
discard x [] = []
discard x (y ∷ s) = let rest = discard x s in if text_eq x y then rest else y ∷ rest

-- s | t
unfoldable pub union : TextSet → TextSet → TextSet
unfolding insert
union s [] = s
union s (x ∷ t) = union (insert x s) t

pub member-insert : (y x : Text) (s : TextSet) → member y (insert x s) ≡ (text_eq y x || member y s)
unfolding member insert
member-insert y x [] = refl
member-insert y x (z ∷ s) =
    ground (arith, member-insert y x s, text_eq_iff x z, text_eq_iff y x, text_eq_iff y z)

pub member-union : (y : Text) (s t : TextSet) → member y (union s t) ≡ (member y s || member y t)
unfolding member union
member-union y s [] = ground arith
member-union y s (x ∷ t) = ground (arith, member-union y (insert x s) t, member-insert y x s)

pub member-discard :
    (y x : Text) (s : TextSet)
    → member y (discard x s) ≡ (if text_eq y x then false else member y s)
unfolding member discard
member-discard y x [] = ground arith
member-discard y x (z ∷ s) =
    ground (arith, member-discard y x s, text_eq_iff x z, text_eq_iff y x, text_eq_iff y z)
