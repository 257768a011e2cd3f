-- ===== src/Glob/Regex.antt =====
-- The part of Python's `re` that a compiled glob uses: escaped literals, `.{n}` and `.{n,}`,
-- between \A and \Z, with re.IGNORECASE and without re.DOTALL.
use synapse_guardian.Prelude.{
  ℕ, zero, suc, Bool, false, ◌&&◌, ◌||◌, not, List, [], ◌∷◌, ◌==◌, Text, is_empty,
}
use synapse_guardian.Unicode.{Unicode}

pub data Piece : Type 0 where
  literal : ℕ → Piece
  exactly at_least : ℕ → Piece

abbrev pub Pattern : Type 0
Pattern = List Piece

-- `.` matches every character but a newline
unfoldable pub dot : ℕ → Bool
dot c = not (c == 10)

-- .{n}, and then `rest`
unfoldable pub dots : ℕ → (Text → Bool) → Text → Bool
dots zero rest s = rest s
dots (suc n) rest [] = false
dots (suc n) rest (c ∷ s) = dot c && dots n rest s

-- .*, and then `rest`
unfoldable pub any_dots : (Text → Bool) → Text → Bool
any_dots rest [] = rest []
any_dots rest (c ∷ s) = rest (c ∷ s) || (dot c && any_dots rest s)

module _ ⦃u : Unicode⦄ where
  unfoldable pub letter : ℕ → (Text → Bool) → Text → Bool
  letter c rest [] = false
  letter c rest (x ∷ s) = u.same_letter c x && rest s

  -- regex.match(s) is not None
  unfoldable pub matches : Pattern → Text → Bool
  unfolding dots any_dots letter dot
  matches [] s = is_empty s
  matches (literal c ∷ p) s = letter c (matches p) s
  matches (exactly n ∷ p) s = dots n (matches p) s
  matches (at_least n ∷ p) s = dots n (any_dots (matches p)) s
