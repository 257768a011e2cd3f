-- ===== src/Prelude/Steps.antt =====
-- Computations on a state `S` that may raise `E` and keep what they have done by then.
use synapse_guardian.Prelude.Result.{Result, ok, err}

module _ {ℓ κ} {E S : Type 0} {A : Type ℓ} {B : Type κ} where
  -- what follows a computation that has come to a result
  abbrev pub continue : Result E A × S → (A → S → Result E B × S) → Result E B × S
  continue (ok a, s) next = next a s
  continue (err why, s) next = (err why, s)

  infixl 5 ◌>>=◌
  abbrev pub ◌>>=◌ : (S → Result E A × S) → (A → S → Result E B × S) → S → Result E B × S
  ◌>>=◌ m next s = continue (m s) next
