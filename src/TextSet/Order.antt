-- ===== src/TextSet/Order.antt =====
-- The elements of a set stand in increasing order, each once.
use synapse_guardian.Prelude.{
  ◌≡◌, refl, sym, ap, ◌∙◌, true, false, List, [], ◌∷◌, ◌++◌, arith, Text, text_eq, text_eq_iff, All,
  All-append, append_assoc, append-nil, Bool-cases, inl, inr,
}
use synapse_guardian.TextSet.{TextSet, text_ltb, insert, union}

text_ltb_irrefl : (s : Text) → text_ltb s s ≡ false
unfolding text_ltb
text_ltb_irrefl [] = refl
text_ltb_irrefl (c ∷ s) = ground (arith, text_ltb_irrefl s)

text_ltb_trans : (s t r : Text) → text_ltb s t ≡ true → text_ltb t r ≡ true → text_ltb s r ≡ true
unfolding text_ltb
text_ltb_trans [] (d ∷ t) (e ∷ r) h k = refl
text_ltb_trans (c ∷ s) (d ∷ t) (e ∷ r) h k = ground (arith, text_ltb_trans s t r)
text_ltb_trans [] [] r h k = ground arith
text_ltb_trans [] (d ∷ t) [] h k = ground arith
text_ltb_trans (c ∷ s) [] r h k = ground arith
text_ltb_trans (c ∷ s) (d ∷ t) [] h k = ground arith

text_ltb-total : (s t : Text) → text_eq s t ≡ false → text_ltb s t ≡ false → text_ltb t s ≡ true
unfolding text_ltb text_eq
text_ltb-total [] [] h k = ground arith
text_ltb-total [] (d ∷ t) h k = ground arith
text_ltb-total (c ∷ s) [] h k = refl
text_ltb-total (c ∷ s) (d ∷ t) h k = ground (arith, text_ltb-total s t)

abbrev pub Below : Text → List Text → Type 0
Below x = All (λ y. text_ltb x y ≡ true)

abbrev pub IsSorted : TextSet → Type 0
IsSorted [] = Unit
IsSorted (x ∷ s) = Below x s × IsSorted s

Below-trans : (x y : Text) (s : TextSet) → text_ltb x y ≡ true → Below y s → Below x s
Below-trans x y [] h b = tt
Below-trans x y (z ∷ s) h b = (text_ltb_trans x y z h b.0, Below-trans x y s h b.1)

Below-insert : (y x : Text) (s : TextSet) → text_ltb y x ≡ true → Below y s → Below y (insert x s)
unfolding insert
Below-insert y x [] h b = (h, tt)
Below-insert y x (z ∷ s) h b = ground (arith, Below-insert y x s h b.1)

-- Adding an element keeps the order.
pub insert-IsSorted : (x : Text) (s : TextSet) → IsSorted s → IsSorted (insert x s)
unfolding insert
insert-IsSorted x [] h = (tt, tt)
insert-IsSorted x (y ∷ s) h = elim (Bool-cases (text_eq x y)) [
  | inl e ↦ rw e h
  | inr ne ↦ elim (Bool-cases (text_ltb x y)) [
    | inl lt ↦ rw (ne, lt) ((lt, Below-trans x y s lt h.0), h)
    | inr ge ↦
        rw (ne, ge) (Below-insert y x s (text_ltb-total x y ne ge) h.0, insert-IsSorted x s h.1)
  ]
]

pub union-IsSorted : (s t : TextSet) → IsSorted s → IsSorted (union s t)
unfolding union
union-IsSorted s [] h = h
union-IsSorted s (x ∷ t) h = union-IsSorted (insert x s) t (insert-IsSorted x s h)

-- every element of the list stands before `x`
Above : Text → List Text → Type 0
Above x = All (λ y. text_ltb y x ≡ true)

lt→ne : (x y : Text) → text_ltb y x ≡ true → text_eq x y ≡ false
lt→ne x y h = ground (arith, text_eq_iff x y, text_ltb_irrefl x)

lt_asymm : (x y : Text) → text_ltb y x ≡ true → text_ltb x y ≡ false
lt_asymm x y h = ground (arith, text_ltb_trans x y x, text_ltb_irrefl x)

insert_last : (x : Text) (s : TextSet) → Above x s → insert x s ≡ s ++ x ∷ []
unfolding insert Above
insert_last x [] h = refl
insert_last x (y ∷ s) h =
    rw (lt→ne x y h.0, lt_asymm x y h.0) (ap (λ (t : TextSet). y ∷ t) (insert_last x s h.1))

All-Above-step :
    (acc : TextSet) (x : Text) (s : List Text)
    → All (λ y. Above y acc) (x ∷ s)
    → IsSorted (x ∷ s)
    → All (λ y. Above y (acc ++ x ∷ [])) s
unfolding Above
All-Above-step acc x [] a h = tt
All-Above-step acc x (z ∷ s) a h = (
  All-append (λ w. text_ltb w z ≡ true) acc (x ∷ []) a.1.0 (h.0.0, tt),
  All-Above-step acc x s (a.0, a.1.1) (h.0.1, h.1.1),
)

union_sorted : (acc s : TextSet) → All (λ y. Above y acc) s → IsSorted s → union acc s ≡ acc ++ s
unfolding union
union_sorted acc [] a h = sym (append-nil acc)
union_sorted acc (x ∷ s) a h =
    ap (λ (t : TextSet). union t s) (insert_last x acc a.0)
    ∙ union_sorted (acc ++ x ∷ []) s (All-Above-step acc x s a h) h.1
    ∙ append_assoc acc (x ∷ []) s

All-Above-nil : (s : List Text) → All (λ y. Above y []) s
unfolding Above
All-Above-nil [] = tt
All-Above-nil (x ∷ s) = (tt, All-Above-nil s)

-- Adding the elements of a set to the empty set, in order, rebuilds the set.
pub union-nil_sorted : (s : TextSet) → IsSorted s → union [] s ≡ s
union-nil_sorted s h = union_sorted [] s (All-Above-nil s) h
