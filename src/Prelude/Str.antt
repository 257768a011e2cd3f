-- ===== src/Prelude/Str.antt =====
-- Python's `str` as the list of its code points, with the tests of `str` that need no Unicode
-- tables. `codes` turns a literal of the source into such a list.
use Prim.Native.Nat.{ℕ}
use Prim.Native.Char.{code}
use Prim.Native.String.{String}
use mathlib.Core.Path.{◌≡◌, refl, ap₂}
use mathlib.Core.Logic.{◌↔◌}
use mathlib.Core.Bool.{Bool, true, false, ◌&&◌, ◌||◌}
use mathlib.Core.List.{List, [], ◌∷◌, ◌++◌}
use native.Mathlib.Omega.{arith}
use synapse_guardian.Prelude.Tests.{◌==◌, ==_iff, &&_parts, if◌then◌else◌}

abbrev pub Text : Type 0
Text = List ℕ

abbrev pub codes : String → Text
codes String.[] = []
codes (String.◌∷◌ c s) = code c ∷ codes s

-- a == b
unfoldable pub text_eq : Text → Text → Bool
text_eq [] [] = true
text_eq (c ∷ s) (d ∷ t) = c == d && text_eq s t
text_eq _ _ = false

pub text_eq→eq : (s t : Text) → text_eq s t ≡ true → s ≡ t
unfolding text_eq
text_eq→eq [] [] h = refl
text_eq→eq [] (d ∷ t) h = ground arith
text_eq→eq (c ∷ s) [] h = ground arith
text_eq→eq (c ∷ s) (d ∷ t) h =
    let (e, r) = &&_parts (c == d) (text_eq s t) h in ap₂ ◌∷◌ ((==_iff c d).0 e) (text_eq→eq s t r)

pub text_eq_refl : (s : Text) → text_eq s s ≡ true
unfolding text_eq
text_eq_refl [] = refl
text_eq_refl (c ∷ s) = ground (arith, text_eq_refl s)

pub text_eq_iff : (s t : Text) → (text_eq s t ≡ true) ↔ (s ≡ t)
text_eq_iff s t = (text_eq→eq s t, λ e. rw e (text_eq_refl t))

-- s.startswith(c) for a text of one character
unfoldable pub starts_with : ℕ → Text → Bool
starts_with c [] = false
starts_with c (x ∷ s) = x == c

-- c in s, for a text c of one character
unfoldable pub has_char : ℕ → Text → Bool
has_char c [] = false
has_char c (x ∷ s) = x == c || has_char c s

-- s.split(c, 1)[1]
unfoldable pub after_first : ℕ → Text → Text
after_first c [] = []
after_first c (x ∷ s) = let rest = after_first c s in if x == c then s else rest

-- not s
abbrev pub is_empty : Text → Bool
is_empty [] = true
is_empty (c ∷ s) = false

pub after_first-append :
    (c : ℕ) (s t : Text) → has_char c s ≡ false → after_first c (s ++ c ∷ t) ≡ t
unfolding after_first has_char
after_first-append c [] t h = ground arith
after_first-append c (x ∷ s) t h = ground (arith, after_first-append c s t)
