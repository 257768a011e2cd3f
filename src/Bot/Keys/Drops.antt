-- ===== src/Bot/Keys/Drops.antt =====
-- Taking state keys out of a list, one after another.
use synapse_guardian.Prelude.{
  ◌≡◌, refl, inl, inr, true, not, List, [], ◌∷◌, arith, Text, text_eq, text_eq_refl, keep, any, All,
  Bool-cases,
}

-- the keys left when others are taken out one after another
unfoldable pub drop_each : List Text → List Text → List Text
drop_each [] keys = keys
drop_each (key ∷ others) keys = drop_each others (keep (λ k. not (text_eq k key)) keys)

abbrev pub AllIn : List Text → List Text → Type 0
AllIn others = All (λ k. any (text_eq k) others ≡ true)

AllIn-more : (key : Text) (others keys : List Text) → AllIn others keys → AllIn (key ∷ others) keys
unfolding any
AllIn-more key others [] h = tt
AllIn-more key others (k ∷ keys) (here, rest) = (ground arith, AllIn-more key others keys rest)

pub all_in : (keys : List Text) → AllIn keys keys
unfolding any
all_in [] = tt
all_in (key ∷ keys) = (rw (text_eq_refl key) refl, AllIn-more key keys keys (all_in keys))

AllIn-fewer :
    (key : Text) (others keys : List Text)
    → AllIn (key ∷ others) keys
    → AllIn others (keep (λ k. not (text_eq k key)) keys)
unfolding any keep
AllIn-fewer key others [] h = tt
AllIn-fewer key others (k ∷ keys) (here, rest) = elim (Bool-cases (text_eq k key)) [
  | inl same ↦ rw same (AllIn-fewer key others keys rest)
  | inr apart ↦ rw apart (ground arith, AllIn-fewer key others keys rest)
]

pub drop_each_nil : (others keys : List Text) → AllIn others keys → drop_each others keys ≡ []
unfolding drop_each any
drop_each_nil [] [] h = refl
drop_each_nil [] (k ∷ keys) (here, rest) = cc
drop_each_nil (key ∷ others) keys h = drop_each_nil others _ (AllIn-fewer key others keys h)
