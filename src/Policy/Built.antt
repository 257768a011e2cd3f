-- ===== src/Policy/Built.antt =====
-- What a rule set built from any entries satisfies.
use synapse_guardian.Prelude.{
  ◌≡◌, refl, ap, subst, ◌↔◌, true, false, ◌&&◌, List, [], ◌∷◌, arith, Text, All, codes, inl, inr,
}
use synapse_guardian.Prelude.Result.{ok, Result-cases}
use synapse_guardian.Unicode.{Unicode}
use synapse_guardian.Glob.{glob_to_regex}
use synapse_guardian.Glob.Regex.{matches}
use synapse_guardian.Glob.Meaning.{GlobMatches}
use synapse_guardian.Glob.Correct.{glob_to_regex_iff}
use synapse_guardian.Policy.Kinds.{
  Kind, allowed_server, allowed_user, is_allow_kind, is_user_kind, is_server_kind,
}
use synapse_guardian.Policy.Patterns.{validate_pattern, is_catch_all}
use synapse_guardian.Policy.Rules.{
  Rule, RuleSet, Report, Entry, empty, add_entry, build_from, build, build_strict_from,
  build_strict,
}
use synapse_guardian.Policy.Permitted.{IsCompiledRule, IsCompiled}
use synapse_guardian.Policy.Building.{
  IsRuleOf, IsWellFormed, empty-IsWellFormed, add_entry-IsWellFormed,
}

module _ ⦃u : Unicode⦄ where
  build_from-IsWellFormed :
      (rs : RuleSet) (entries : List Entry)
      → IsWellFormed rs
      → IsWellFormed (build_from rs entries).0
  unfolding build_from
  build_from-IsWellFormed rs [] w = w
  build_from-IsWellFormed rs ((kind, pattern) ∷ entries) w =
      elim (Result-cases (add_entry rs (kind, pattern))) [
        | inl (rs', e) ↦
            rw (e, build_from)
              (build_from-IsWellFormed rs' entries (add_entry-IsWellFormed rs rs' kind pattern e w))
        | inr (x, e) ↦ rw (e, build_from) (build_from-IsWellFormed rs entries w)
      ]

  -- Whatever the entries, the rule set that is built holds accepted patterns only, each under its
  -- own kind and with its compiled regex, and the lower-cased user IDs in order.
  pub build-IsWellFormed : (entries : List Entry) → IsWellFormed (build entries).0
  unfolding build
  build-IsWellFormed entries = build_from-IsWellFormed empty entries empty-IsWellFormed

  build_strict_from_iff :
      (rs rs' : RuleSet) (entries : List Entry)
      → (build_strict_from rs entries ≡ ok rs') ↔ (build_from rs entries ≡ (rs', []))
  unfolding build_from build_strict_from
  build_strict_from_iff rs rs' [] = (λ h. ground arith, λ h. ground arith)
  build_strict_from_iff rs rs' (e ∷ entries) = elim (Result-cases (add_entry rs e)) [
    | inl (next, p) ↦ rw (p, build_from, build_strict_from) (build_strict_from_iff next rs' entries)
    | inr (x, p) ↦ rw (p, build_from, build_strict_from) (λ h. cc, λ h. absurd (ground arith))
  ]

  -- `build` raises exactly when it would have reported an entry, and otherwise builds the same.
  pub build_strict_iff :
      (entries : List Entry) (rs : RuleSet)
      → (build_strict entries ≡ ok rs) ↔ (build entries ≡ (rs, []))
  unfolding build build_strict
  build_strict_iff entries rs = build_strict_from_iff empty rs entries

  -- What `build` without a handler accepts is well formed.
  pub build_strict-IsWellFormed :
      (entries : List Entry) (rs : RuleSet) → build_strict entries ≡ ok rs → IsWellFormed rs
  build_strict-IsWellFormed entries rs h =
      let e = (build_strict_iff entries rs).0 h in
      subst IsWellFormed (ap (λ (b : RuleSet × List Report). b.0) e) (build-IsWellFormed entries)

  All-compiled :
      (kind : Kind) (rules : List Rule) → All (IsRuleOf kind) rules → All IsCompiledRule rules
  All-compiled kind [] a = tt
  All-compiled kind (r ∷ rules) a = (a.0.compiled, All-compiled kind rules a.1)

  pub IsWellFormed→IsCompiled : {rs : RuleSet} → IsWellFormed rs → IsCompiled rs
  IsWellFormed→IsCompiled {rs} w = record {
    compiled_blocked_users = All-compiled _ rs.blocked_users w.blocked_users_valid;
    compiled_allowed_users = All-compiled _ rs.allowed_users w.allowed_users_valid;
    compiled_blocked_servers = All-compiled _ rs.blocked_servers w.blocked_servers_valid;
    compiled_allowed_servers = All-compiled _ rs.allowed_servers w.allowed_servers_valid;
  }

  not-catch_all :
      (kind : Kind) (r : Rule)
      → is_allow_kind kind ≡ true
      → IsRuleOf kind r
      → is_catch_all r.pattern kind ≡ false
  unfolding validate_pattern
  not-catch_all kind r h v = ground (arith, v.valid)

  -- The pattern is not a glob that both texts match.
  abbrev pub SparesOneOf : Text → Text → Rule → Type 0
  SparesOneOf first second r = ¬ (GlobMatches r.pattern first × GlobMatches r.pattern second)

  spares_one :
      (first second : Text) (r : Rule)
      → (matches (glob_to_regex r.pattern) first && matches (glob_to_regex r.pattern) second)
        ≡ false
      → SparesOneOf first second r
  spares_one first second r h (a, b) =
      let p = (glob_to_regex_iff r.pattern first).1 a in
      let q = (glob_to_regex_iff r.pattern second).1 b in ground arith

  user-spares :
      (r : Rule) → IsRuleOf allowed_user r → SparesOneOf (codes "@q:q.q") (codes "@z:z.z") r
  unfolding is_catch_all is_user_kind
  user-spares r v =
      spares_one _ _ r
        (ground (arith, not-catch_all allowed_user r (unfold is_allow_kind in refl) v))

  server-spares : (r : Rule) → IsRuleOf allowed_server r → SparesOneOf (codes "q.q") (codes "z.z") r
  unfolding is_catch_all is_user_kind is_server_kind
  server-spares r v =
      spares_one _ _ r
        (ground (arith, not-catch_all allowed_server r (unfold is_allow_kind in refl) v))

  All-map {ℓ κ} :
      {P : Rule → Type ℓ} {Q : Rule → Type κ} (rules : List Rule)
      → ((r : Rule) → P r → Q r)
      → All P rules
      → All Q rules
  All-map [] f a = tt
  All-map (r ∷ rules) f a = (f r a.0, All-map rules f a.1)

  -- No single allow rule of a rule set that was built lets in both of two unrelated users, or
  -- users of both of two unrelated servers.
  pub build-SparesOneOf :
      (entries : List Entry)
      → All (SparesOneOf (codes "@q:q.q") (codes "@z:z.z")) (build entries).0.allowed_users
        × All (SparesOneOf (codes "q.q") (codes "z.z")) (build entries).0.allowed_servers
  build-SparesOneOf entries =
      let w = build-IsWellFormed entries in
      (
        All-map (build entries).0.allowed_users user-spares w.allowed_users_valid,
        All-map (build entries).0.allowed_servers server-spares w.allowed_servers_valid,
      )
