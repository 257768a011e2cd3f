-- ===== src/Policy/Building.antt =====
-- `build` keeps exactly the valid entries, and what it keeps is well formed.
use synapse_guardian.Prelude.{
  ◌≡◌, refl, List, [], ◌∷◌, ◌++◌, Text, All, All-append, Bool-cases, inl, inr, text_eq, subst,
}
use synapse_guardian.Prelude.Result.{ok, ok-injective, >>=-eq-ok}
use synapse_guardian.Unicode.{Unicode}
use synapse_guardian.TextSet.{TextSet, insert, text_ltb}
use synapse_guardian.TextSet.Order.{IsSorted, insert-IsSorted}
use synapse_guardian.Glob.{glob_to_regex}
use synapse_guardian.Policy.Kinds.{
  Kind, protected_user, allowed_server, allowed_user, blocked_user, blocked_server, unknown,
}
use synapse_guardian.Policy.Patterns.{validate_pattern}
use synapse_guardian.Policy.Rules.{Rule, RuleSet, empty, compile_rule, add_entry}

module _ ⦃u : Unicode⦄ where
  -- a rule of the given kind whose pattern was accepted and compiled
  pub record IsRuleOf (kind : Kind) (r : Rule) : Type 0 where
    pub of_kind : r.kind ≡ kind
    pub valid : validate_pattern kind r.pattern ≡ ok tt
    pub compiled : r.regex ≡ glob_to_regex r.pattern

  -- the lower-cased form of an accepted user ID
  pub record IsLowered (id : Text) : Type 0 where
    pub original : Text
    pub lowered : id ≡ u.lower original
    pub accepted : validate_pattern protected_user original ≡ ok tt

  pub record IsWellFormed (rs : RuleSet) : Type 0 where
    pub protected_sorted : IsSorted rs.protected_users
    pub protected_lowered : All IsLowered rs.protected_users
    pub blocked_users_valid : All (IsRuleOf blocked_user) rs.blocked_users
    pub allowed_users_valid : All (IsRuleOf allowed_user) rs.allowed_users
    pub blocked_servers_valid : All (IsRuleOf blocked_server) rs.blocked_servers
    pub allowed_servers_valid : All (IsRuleOf allowed_server) rs.allowed_servers

  pub empty-IsWellFormed : IsWellFormed empty
  empty-IsWellFormed = record {
    protected_sorted = tt;
    protected_lowered = tt;
    blocked_users_valid = tt;
    allowed_users_valid = tt;
    blocked_servers_valid = tt;
    allowed_servers_valid = tt;
  }

  All-insert {ℓ} : (P : Text → Type ℓ) (x : Text) (s : TextSet) → P x → All P s → All P (insert x s)
  unfolding insert
  All-insert P x [] h a = (h, tt)
  All-insert P x (y ∷ s) h a = elim (Bool-cases (text_eq x y)) [
    | inl e ↦ rw e a
    | inr ne ↦ elim (Bool-cases (text_ltb x y)) [
      | inl lt ↦ rw (ne, lt) (h, a)
      | inr ge ↦ rw (ne, ge) (a.0, All-insert P x s h a.1)
    ]
  ]

  compile_rule_ok :
      (kind : Kind) (pattern : Text) (r : Rule) → compile_rule kind pattern ≡ ok r → IsRuleOf kind r
  unfolding compile_rule
  compile_rule_ok kind pattern r h =
      let (t, valid, e) = >>=-eq-ok (validate_pattern kind pattern) _ h in
      subst (IsRuleOf kind) (ok-injective e)
        (record { of_kind = refl; valid = valid; compiled = refl })

  add_protected :
      (rs rs' : RuleSet) (pattern : Text)
      → add_entry rs (protected_user, pattern) ≡ ok rs'
      → IsWellFormed rs
      → IsWellFormed rs'
  unfolding add_entry
  add_protected rs rs' pattern h w =
      let (t, valid, e) = >>=-eq-ok (validate_pattern protected_user pattern) _ h in
      subst IsWellFormed (ok-injective e) (record {
        protected_sorted = insert-IsSorted (u.lower pattern) rs.protected_users w.protected_sorted;
        protected_lowered =
            All-insert IsLowered (u.lower pattern) rs.protected_users
              (record { original = pattern; lowered = refl; accepted = valid }) w.protected_lowered;
        blocked_users_valid = w.blocked_users_valid;
        allowed_users_valid = w.allowed_users_valid;
        blocked_servers_valid = w.blocked_servers_valid;
        allowed_servers_valid = w.allowed_servers_valid;
      })

  All-snoc :
      (kind : Kind) (pattern : Text) (r : Rule) (rules : List Rule)
      → compile_rule kind pattern ≡ ok r
      → All (IsRuleOf kind) rules
      → All (IsRuleOf kind) (rules ++ r ∷ [])
  All-snoc kind pattern r rules h a =
      All-append (IsRuleOf kind) rules (r ∷ []) a (compile_rule_ok kind pattern r h, tt)

  with_blocked_users :
      (rs : RuleSet) {rules : List Rule}
      → IsWellFormed rs
      → All (IsRuleOf blocked_user) rules
      → IsWellFormed (record rs { blocked_users = rules })
  with_blocked_users rs w h = record {
    protected_sorted = w.protected_sorted;
    protected_lowered = w.protected_lowered;
    blocked_users_valid = h;
    allowed_users_valid = w.allowed_users_valid;
    blocked_servers_valid = w.blocked_servers_valid;
    allowed_servers_valid = w.allowed_servers_valid;
  }

  with_allowed_users :
      (rs : RuleSet) {rules : List Rule}
      → IsWellFormed rs
      → All (IsRuleOf allowed_user) rules
      → IsWellFormed (record rs { allowed_users = rules })
  with_allowed_users rs w h = record {
    protected_sorted = w.protected_sorted;
    protected_lowered = w.protected_lowered;
    blocked_users_valid = w.blocked_users_valid;
    allowed_users_valid = h;
    blocked_servers_valid = w.blocked_servers_valid;
    allowed_servers_valid = w.allowed_servers_valid;
  }

  with_blocked_servers :
      (rs : RuleSet) {rules : List Rule}
      → IsWellFormed rs
      → All (IsRuleOf blocked_server) rules
      → IsWellFormed (record rs { blocked_servers = rules })
  with_blocked_servers rs w h = record {
    protected_sorted = w.protected_sorted;
    protected_lowered = w.protected_lowered;
    blocked_users_valid = w.blocked_users_valid;
    allowed_users_valid = w.allowed_users_valid;
    blocked_servers_valid = h;
    allowed_servers_valid = w.allowed_servers_valid;
  }

  with_allowed_servers :
      (rs : RuleSet) {rules : List Rule}
      → IsWellFormed rs
      → All (IsRuleOf allowed_server) rules
      → IsWellFormed (record rs { allowed_servers = rules })
  with_allowed_servers rs w h = record {
    protected_sorted = w.protected_sorted;
    protected_lowered = w.protected_lowered;
    blocked_users_valid = w.blocked_users_valid;
    allowed_users_valid = w.allowed_users_valid;
    blocked_servers_valid = w.blocked_servers_valid;
    allowed_servers_valid = h;
  }

  -- An accepted entry keeps a well-formed rule set well formed.
  pub add_entry-IsWellFormed :
      (rs rs' : RuleSet) (kind : Kind) (pattern : Text)
      → add_entry rs (kind, pattern) ≡ ok rs'
      → IsWellFormed rs
      → IsWellFormed rs'
  unfolding add_entry
  add_entry-IsWellFormed rs rs' protected_user pattern h w = add_protected rs rs' pattern h w
  add_entry-IsWellFormed rs rs' (unknown name) pattern h w = cc
  add_entry-IsWellFormed rs rs' blocked_user pattern h w =
      let (r, valid, e) = >>=-eq-ok (compile_rule blocked_user pattern) _ h in
      subst IsWellFormed (ok-injective e) (
        with_blocked_users rs w
          (All-snoc blocked_user pattern r rs.blocked_users valid w.blocked_users_valid))
  add_entry-IsWellFormed rs rs' allowed_user pattern h w =
      let (r, valid, e) = >>=-eq-ok (compile_rule allowed_user pattern) _ h in
      subst IsWellFormed (ok-injective e) (
        with_allowed_users rs w
          (All-snoc allowed_user pattern r rs.allowed_users valid w.allowed_users_valid))
  add_entry-IsWellFormed rs rs' blocked_server pattern h w =
      let (r, valid, e) = >>=-eq-ok (compile_rule blocked_server pattern) _ h in
      subst IsWellFormed (ok-injective e) (
        with_blocked_servers rs w
          (All-snoc blocked_server pattern r rs.blocked_servers valid w.blocked_servers_valid))
  add_entry-IsWellFormed rs rs' allowed_server pattern h w =
      let (r, valid, e) = >>=-eq-ok (compile_rule allowed_server pattern) _ h in
      subst IsWellFormed (ok-injective e) (
        with_allowed_servers rs w
          (All-snoc allowed_server pattern r rs.allowed_servers valid w.allowed_servers_valid))
