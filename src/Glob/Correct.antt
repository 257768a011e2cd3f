-- ===== src/Glob/Correct.antt =====
-- The compiled glob matches exactly what the glob means.
use synapse_guardian.Prelude.{
  ℕ, ◌≡◌, refl, sym, ap, ◌∙◌, ◌↔◌, ◌⊎◌, inl, inr, ◌≢◌, true, false, [], ◌∷◌, arith, &&_parts,
  ||_parts, Text, false≢true,
}
use synapse_guardian.Unicode.{Unicode}
use synapse_guardian.Glob.{star, question_mark, is_wildcard, split_runs, join_pieces, glob_to_regex}
use synapse_guardian.Glob.Regex.{dot, dots, any_dots, letter, matches}
use synapse_guardian.Glob.Runs.{
  Rest, accepts, accepts-put-star, accepts-put_question, accepts-put-letter,
}
use synapse_guardian.Glob.Meaning.{GlobMatches, done, star_ends, star_takes, one, same}

sort_of : (c : ℕ) → (c ≡ star) ⊎ (c ≡ question_mark) ⊎ (is_wildcard c ≡ false)
unfolding is_wildcard
sort_of c = ground arith

not-star : (c : ℕ) → is_wildcard c ≡ false → c ≢ star
unfolding is_wildcard
not-star c h e = ground arith

not-question : (c : ℕ) → is_wildcard c ≡ false → c ≢ question_mark
unfolding is_wildcard
not-question c h e = ground arith

not_special : (c : ℕ) → c ≢ star → c ≢ question_mark → is_wildcard c ≡ false
unfolding is_wildcard
not_special c h e = ground arith

takes :
    (k : Rest) (x : ℕ) (s : Text) → dot x ≡ true → any_dots k s ≡ true → any_dots k (x ∷ s) ≡ true
unfolding any_dots
takes k x s d h = ground arith

dot-then : (k : Rest) (x : ℕ) (s : Text) → dot x ≡ true → k s ≡ true → dots 1 k (x ∷ s) ≡ true
unfolding dots
dot-then k x s d h = ground arith

module _ ⦃u : Unicode⦄ where
  letter-then :
      (c : ℕ) (k : Rest) (x : ℕ) (s : Text)
      → u.same_letter c x ≡ true
      → k s ≡ true
      → letter c k (x ∷ s) ≡ true
  unfolding letter
  letter-then c k x s d h = ground arith

  glob_accepts : Text → Rest
  glob_accepts g = accepts (split_runs g)

  accepts-of_star :
      (c : ℕ) (g s : Text) → c ≡ star → glob_accepts (c ∷ g) s ≡ any_dots (glob_accepts g) s
  unfolding glob_accepts split_runs
  accepts-of_star c g s e = rw e (ap (λ (k : Rest). k s) (accepts-put-star (split_runs g)))

  accepts-of_question :
      (c : ℕ) (g s : Text) → c ≡ question_mark → glob_accepts (c ∷ g) s ≡ dots 1 (glob_accepts g) s
  unfolding glob_accepts split_runs
  accepts-of_question c g s e = rw e (ap (λ (k : Rest). k s) (accepts-put_question (split_runs g)))

  accepts-of_letter :
      (c : ℕ) (g s : Text)
      → is_wildcard c ≡ false
      → glob_accepts (c ∷ g) s ≡ letter c (glob_accepts g) s
  unfolding glob_accepts split_runs
  accepts-of_letter c g s h = ap (λ (k : Rest). k s) (accepts-put-letter c (split_runs g) h)

  sound-star :
      (c : ℕ) (g s : Text)
      → c ≡ star
      → ((t : Text) → glob_accepts g t ≡ true → GlobMatches g t)
      → any_dots (glob_accepts g) s ≡ true
      → GlobMatches (c ∷ g) s
  unfolding any_dots
  sound-star c g [] e ih h = star_ends e (ih [] h)
  sound-star c g (x ∷ s) e ih h = elim (||_parts (glob_accepts g (x ∷ s)) _ h) [
    | inl a ↦ star_ends e (ih (x ∷ s) a)
    | inr b ↦ let (d, r) = &&_parts (dot x) _ b in star_takes e d (sound-star c g s e ih r)
  ]

  nothing-accepts : (x : ℕ) (s : Text) → glob_accepts [] (x ∷ s) ≡ false
  unfolding glob_accepts accepts split_runs join_pieces matches
  nothing-accepts x s = refl

  nothing-accepts_nil : glob_accepts [] [] ≡ true
  unfolding glob_accepts accepts split_runs join_pieces matches
  nothing-accepts_nil = refl

  sound-question :
      (c : ℕ) (g s : Text)
      → c ≡ question_mark
      → ((t : Text) → glob_accepts g t ≡ true → GlobMatches g t)
      → dots 1 (glob_accepts g) s ≡ true
      → GlobMatches (c ∷ g) s
  unfolding dots
  sound-question c g [] e ih h = absurd (false≢true h)
  sound-question c g (x ∷ s) e ih h =
      let (d, r) = &&_parts (dot x) (glob_accepts g s) h in one e d (ih s r)

  sound-letter :
      (c : ℕ) (g s : Text)
      → is_wildcard c ≡ false
      → ((t : Text) → glob_accepts g t ≡ true → GlobMatches g t)
      → letter c (glob_accepts g) s ≡ true
      → GlobMatches (c ∷ g) s
  unfolding letter
  sound-letter c g [] w ih h = absurd (false≢true h)
  sound-letter c g (x ∷ s) w ih h =
      let (d, r) = &&_parts (u.same_letter c x) (glob_accepts g s) h in
      same (not-star c w) (not-question c w) d (ih s r)

  sound : (g s : Text) → glob_accepts g s ≡ true → GlobMatches g s
  sound [] [] h = done
  sound [] (x ∷ s) h = absurd (false≢true (sym (nothing-accepts x s) ∙ h))
  sound (c ∷ g) s h = elim (sort_of c) [
    | inl e ↦ sound-star c g s e (sound g) (sym (accepts-of_star c g s e) ∙ h)
    | inr (inl e) ↦ sound-question c g s e (sound g) (sym (accepts-of_question c g s e) ∙ h)
    | inr (inr w) ↦ sound-letter c g s w (sound g) (sym (accepts-of_letter c g s w) ∙ h)
  ]

  any_dots-ends : (k : Rest) (s : Text) → k s ≡ true → any_dots k s ≡ true
  unfolding any_dots
  any_dots-ends k [] h = h
  any_dots-ends k (x ∷ s) h = ground arith

  complete : {g s : Text} → GlobMatches g s → glob_accepts g s ≡ true
  complete done = nothing-accepts_nil
  complete (star_ends {c} {g} {s} e m) =
      accepts-of_star c g s e ∙ any_dots-ends (glob_accepts g) s (complete m)
  complete (star_takes {c} {x} {g} {s} e d m) =
      accepts-of_star c g (x ∷ s) e
      ∙ takes (glob_accepts g) x s d (sym (accepts-of_star c g s e) ∙ complete m)
  complete (one {c} {x} {g} {s} e d m) =
      accepts-of_question c g (x ∷ s) e ∙ dot-then (glob_accepts g) x s d (complete m)
  complete (same {c} {x} {g} {s} n q d m) =
      accepts-of_letter c g (x ∷ s) (not_special c n q)
      ∙ letter-then c (glob_accepts g) x s d (complete m)

  -- A subject matches the compiled regex of a glob exactly when it matches the glob, read one
  -- character at a time: `*` any run of characters but newlines, `?` one such character, and any
  -- other character itself up to case.
  pub glob_to_regex_iff : (g s : Text) → (matches (glob_to_regex g) s ≡ true) ↔ GlobMatches g s
  unfolding glob_to_regex
  glob_to_regex_iff g s = (
    λ h. sound g s (unfold glob_accepts accepts in h),
    λ m. unfold glob_accepts accepts in complete m,
  )
