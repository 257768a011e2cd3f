-- ===== src/Policy/Newlines.antt =====
-- `.` of the compiled globs matches no newline, and `evaluate` takes user IDs that hold one.
use synapse_guardian.Prelude.{
  ℕ, ◌≡◌, ◌≤◌, refl, sym, ◌∙◌, inl, inr, true, false, List, [], ◌∷◌, arith, ◌==◌, Text, length,
  has_char, All, false≢true,
}
use synapse_guardian.Unicode.{Unicode}
use synapse_guardian.Glob.Regex.{dot}
use synapse_guardian.Glob.Meaning.{GlobMatches, done, star_ends, star_takes, one, same}
use synapse_guardian.Policy.Rules.{Rule, RuleSet, evaluate}
use synapse_guardian.Policy.Permitted.{Hit, IsCompiled, IsMxid, by_server}
use synapse_guardian.Policy.Evaluation.{evaluate_iff}

abbrev newline : ℕ
newline = 10

not-dot : (x : ℕ) (s : Text) → dot x ≡ true → has_char newline (x ∷ s) ≡ has_char newline s
unfolding dot has_char
not-dot x s h = ground arith

module _ ⦃u : Unicode⦄ where
  -- no character of the glob matches a newline
  abbrev pub HasNoNewline : Text → Type 0
  HasNoNewline = All (λ c. u.same_letter c newline ≡ false)

  not_newline :
      (c x : ℕ)
      → u.same_letter c newline ≡ false
      → u.same_letter c x ≡ true
      → (x == newline) ≡ false
  not_newline c x h k = ground arith

  matches_no_newline : {g s : Text} → GlobMatches g s → HasNoNewline g → has_char newline s ≡ false
  unfolding has_char
  matches_no_newline done h = refl
  matches_no_newline (star_ends e m) h = matches_no_newline m h.1
  matches_no_newline (star_takes {c} {x} {g} {s} e d m) h = not-dot x s d ∙ matches_no_newline m h
  matches_no_newline (one {c} {x} {g} {s} e d m) h = not-dot x s d ∙ matches_no_newline m h.1
  matches_no_newline (same {c} {x} {g} {s} n q d m) h =
      ground (arith, matches_no_newline m h.1, not_newline c x h.0 d)

  misses :
      (s : Text) (rules : List Rule)
      → All (λ r. HasNoNewline r.pattern) rules
      → has_char newline s ≡ true
      → ¬ Hit s rules
  misses s (r ∷ rules) h n (inl m) = false≢true (sym (matches_no_newline m h.0) ∙ n)
  misses s (r ∷ rules) h n (inr m) = misses s rules h.1 n m
  misses s [] h n m = elim m [ ]

  -- Whatever the blocked_user globs are, if they hold no newline, a user ID with a newline in it
  -- is allowed as soon as its server is: `*` and `?` do not reach over the newline.
  pub newline_evades_user_blocks :
      (rs : RuleSet) (id server : Text)
      → IsCompiled rs
      → All (λ r. HasNoNewline r.pattern) rs.blocked_users
      → has_char newline id ≡ true
      → IsMxid id server
      → length id ≤ 255
      → ¬ Hit server rs.blocked_servers
      → Hit server rs.allowed_servers
      → (evaluate rs id).allowed ≡ true
  newline_evades_user_blocks rs id server c h n m short nbs allows =
      (evaluate_iff rs id c).1 (by_server m short (misses id rs.blocked_users h n) nbs allows)
