-- ===== src/Policy/Evaluation.antt =====
-- `evaluate` implements the documented precedence.
use synapse_guardian.Prelude.{
  ℕ, ◌≡◌, ◌≤◌, refl, sym, ap, ◌∙◌, ◌↔◌, ◌⊎◌, inl, inr, Bool, true, false, not, ◌&&◌, ◌||◌, List, [],
  ◌∷◌, ◌++◌, arith, ltb, ◌==◌, if◌then◌else◌, ||_parts, Bool-cases, false≢true, Text, length,
  starts_with, has_char, after_first, after_first-append, any, All,
}
use synapse_guardian.Prelude.Result.{Result, ok, err}
use synapse_guardian.Unicode.{Unicode}
use synapse_guardian.Glob.Meaning.{GlobMatches}
use synapse_guardian.Glob.Correct.{glob_to_regex_iff}
use synapse_guardian.Glob.Regex.{matches}
use synapse_guardian.Policy.Patterns.{NotUserId, server_of, max_subject_len}
use synapse_guardian.Policy.Rules.{
  Decision, Rule, RuleSet, rule_matches, or_else, deciding, evaluate_at, evaluate,
}
use synapse_guardian.Policy.Permitted.{
  IsCompiledRule, IsCompiled, Hit, IsMxid, Permitted, by_user, by_server,
}

before_first : ℕ → Text → Text
before_first c [] = []
before_first c (x ∷ s) = let rest = before_first c s in if x == c then [] else x ∷ rest

before_first_parts :
    (c : ℕ) (s : Text)
    → has_char c s ≡ true
    → (s ≡ before_first c s ++ c ∷ after_first c s) × (has_char c (before_first c s) ≡ false)
unfolding before_first has_char after_first
before_first_parts c [] h = absurd (false≢true h)
before_first_parts c (x ∷ s) h = ground (arith, before_first_parts c s)

server_of→IsMxid : (id server : Text) → server_of id ≡ ok server → IsMxid id server
unfolding server_of starts_with has_char after_first
server_of→IsMxid [] server h = absurd (ground arith)
server_of→IsMxid (c ∷ s) server h =
    let (spelled, first) = before_first_parts b':' s (ground arith) in
    record { local = before_first b':' s; spelled = ground arith; first_colon = first }

has_char-append : (c : ℕ) (s t : Text) → has_char c (s ++ c ∷ t) ≡ true
unfolding has_char
has_char-append c [] t = ground arith
has_char-append c (x ∷ s) t = ground (arith, has_char-append c s t)

IsMxid→server_of : (id server : Text) → IsMxid id server → server_of id ≡ ok server
unfolding server_of starts_with has_char after_first
IsMxid→server_of id server m =
    rw (m.spelled, has_char-append, after_first-append b':' m.local server m.first_colon)

first_hit {ℓ} :
    {a b : Bool} {P Q : Type ℓ} → (a ≡ true → P) → (b ≡ true → Q) → (a ≡ true) ⊎ (b ≡ true) → P ⊎ Q
first_hit f g (inl e) = inl (f e)
first_hit f g (inr e) = inr (g e)

or_left : (a b : Bool) → a ≡ true → (a || b) ≡ true
or_left a b e = ground arith

or_right : (a b : Bool) → b ≡ true → (a || b) ≡ true
or_right a b e = ground arith

le→ltb-false : (a b : ℕ) → a ≤ b → ltb b a ≡ false
le→ltb-false a b h = ground arith

not_true : (a : Bool) → ¬ (a ≡ true) → a ≡ false
not_true a n = ground arith

module _ ⦃u : Unicode⦄ where
  any-Hit :
      (s : Text) (rules : List Rule)
      → All IsCompiledRule rules
      → (any (rule_matches s) rules ≡ true) ↔ Hit s rules
  unfolding any rule_matches
  any-Hit s [] c = (λ h. absurd (false≢true h), λ h. elim h [ ])
  any-Hit s (r ∷ rules) c =
      let glob : (matches r.regex s ≡ true) ↔ GlobMatches r.pattern s =
        rw c.0 (glob_to_regex_iff r.pattern s) in
      let ih = any-Hit s rules c.1 in
      (
        λ h. first_hit (glob.0) ih.0 (||_parts (matches r.regex s) (any (rule_matches s) rules) h),
        λ h. elim h [
          | inl m ↦ or_left (matches r.regex s) _ (glob.1 m)
          | inr m ↦ or_right (matches r.regex s) _ (ih.1 m)
        ],
      )

  not-any-Hit :
      (s : Text) (rules : List Rule)
      → All IsCompiledRule rules
      → (any (rule_matches s) rules ≡ false) ↔ (¬ Hit s rules)
  not-any-Hit s rules c =
      let e = any-Hit s rules c in
      (
        λ h m. false≢true (sym h ∙ e.1 m),
        λ n. not_true (any (rule_matches s) rules) (λ h. n (e.0 h)),
      )

  allowed-deciding :
      (a : Bool) (s : Text) (rules : List Rule) (next : Decision)
      → (or_else (deciding a s rules) next).allowed
        ≡ (if any (rule_matches s) rules then a else next.allowed)
  unfolding deciding any
  allowed-deciding a s [] next = refl
  allowed-deciding a s (r ∷ rules) next = ground (arith, allowed-deciding a s rules next)

  -- the four tests of `evaluate` as one condition
  pub allowed-evaluate_at :
      (rs : RuleSet) (id server : Text)
      → (evaluate_at rs id server).allowed ≡ (
          not (any (rule_matches id) rs.blocked_users)
          && (any (rule_matches id) rs.allowed_users
              || (not (any (rule_matches server) rs.blocked_servers)
                  && any (rule_matches server) rs.allowed_servers)))
  unfolding evaluate_at
  allowed-evaluate_at rs id server =
      allowed-deciding false id rs.blocked_users _
      ∙ ap (λ (b : Bool). if any (rule_matches id) rs.blocked_users then false else b)
          (allowed-deciding true id rs.allowed_users _
            ∙ ap (λ (b : Bool). if any (rule_matches id) rs.allowed_users then true else b)
                (allowed-deciding false server rs.blocked_servers _
                  ∙ ap
                      (λ (b : Bool).
                        if any (rule_matches server) rs.blocked_servers then false else b)
                      (allowed-deciding true server rs.allowed_servers _)))
      ∙ ground arith

  permit :
      (rs : RuleSet) (id server : Text)
      → IsCompiled rs
      → IsMxid id server
      → length id ≤ 255
      → (evaluate_at rs id server).allowed ≡ true
      → Permitted rs id
  permit rs id server c m short h =
      let t = sym (allowed-evaluate_at rs id server) ∙ h in
      let bu = (not-any-Hit id rs.blocked_users c.compiled_blocked_users).0 (ground arith) in
      elim (Bool-cases (any (rule_matches id) rs.allowed_users)) [
        | inl au ↦ by_user m short bu ((any-Hit id rs.allowed_users c.compiled_allowed_users).0 au)
        | inr au ↦
            by_server m short bu
              ((not-any-Hit server rs.blocked_servers c.compiled_blocked_servers).0 (ground arith))
              ((any-Hit server rs.allowed_servers c.compiled_allowed_servers).0 (ground arith))
      ]

  sound :
      (rs : RuleSet) (id : Text) → IsCompiled rs → (evaluate rs id).allowed ≡ true → Permitted rs id
  unfolding evaluate
  sound rs id c h = elim (Bool-cases (ltb max_subject_len (length id))) [
    | inl long ↦ absurd (ground arith)
    | inr short ↦ sound_at (server_of id) refl (ground arith)
  ]
    where
      sound_at : (r : Result NotUserId Text) → server_of id ≡ r → length id ≤ 255 → Permitted rs id
      sound_at (err e) p short = absurd (ground arith)
      sound_at (ok server) p short =
          permit rs id server c (server_of→IsMxid id server p) short (ground arith)

  evaluate-of_mxid :
      (rs : RuleSet) (id server : Text)
      → IsMxid id server
      → length id ≤ 255
      → evaluate rs id ≡ evaluate_at rs id server
  unfolding evaluate
  evaluate-of_mxid rs id server m short =
      rw (IsMxid→server_of id server m, le→ltb-false (length id) 255 short)

  complete :
      (rs : RuleSet) (id : Text) → IsCompiled rs → Permitted rs id → (evaluate rs id).allowed ≡ true
  complete rs id c (by_user {server} m short nbu au) = rw (
    evaluate-of_mxid rs id server m short,
    allowed-evaluate_at,
    (not-any-Hit id rs.blocked_users c.compiled_blocked_users).1 nbu,
    (any-Hit id rs.allowed_users c.compiled_allowed_users).1 au,
  )
  complete rs id c (by_server {server} m short nbu nbs allows) =
      rw
        (
          evaluate-of_mxid rs id server m short,
          allowed-evaluate_at,
          (not-any-Hit id rs.blocked_users c.compiled_blocked_users).1 nbu,
          (not-any-Hit server rs.blocked_servers c.compiled_blocked_servers).1 nbs,
          (any-Hit server rs.allowed_servers c.compiled_allowed_servers).1 allows,
        )
        (ground arith)

  -- In a rule set whose regexes are its compiled patterns, `evaluate` allows exactly the user IDs
  -- of at most 255 characters that no blocked_user glob matches and that an allowed_user glob
  -- matches, or whose server no blocked_server glob and some allowed_server glob matches.
  pub evaluate_iff :
      (rs : RuleSet) (id : Text)
      → IsCompiled rs
      → ((evaluate rs id).allowed ≡ true) ↔ Permitted rs id
  evaluate_iff rs id c = (sound rs id c, complete rs id c)
