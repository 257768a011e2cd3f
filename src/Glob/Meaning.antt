-- ===== src/Glob/Meaning.antt =====
-- What a glob should match, read off the glob itself, character by character.
use synapse_guardian.Prelude.{ℕ, ◌≡◌, ◌≢◌, true, [], ◌∷◌, Text}
use synapse_guardian.Unicode.{Unicode}
use synapse_guardian.Glob.Regex.{dot}

module _ ⦃u : Unicode⦄ where
  pub data GlobMatches : Text → Text → Type 0 where
    done : GlobMatches [] []
    star_ends : {c : ℕ} {g s : Text} → c ≡ b'*' → GlobMatches g s → GlobMatches (c ∷ g) s
    star_takes :
        {c x : ℕ} {g s : Text}
        → c ≡ b'*'
        → dot x ≡ true
        → GlobMatches (c ∷ g) s
        → GlobMatches (c ∷ g) (x ∷ s)
    one :
        {c x : ℕ} {g s : Text}
        → c ≡ b'?'
        → dot x ≡ true
        → GlobMatches g s
        → GlobMatches (c ∷ g) (x ∷ s)
    same :
        {c x : ℕ} {g s : Text}
        → c ≢ b'*'
        → c ≢ b'?'
        → u.same_letter c x ≡ true
        → GlobMatches g s
        → GlobMatches (c ∷ g) (x ∷ s)
