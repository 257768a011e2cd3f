-- ===== src/Policy/Rules.antt =====
-- `Rule`, `Decision` and `RuleSet`: building a rule set, merging two and evaluating one.
use synapse_guardian.Prelude.{
  Bool, true, false, List, [], ◌∷◌, ◌++◌, Option, none, some, ltb, if◌then◌else◌, Text, codes,
  length,
}
use synapse_guardian.Prelude.Result.{Result, ok, err, ◌>>=◌, ◌>>◌}
use synapse_guardian.Unicode.{Unicode}
use synapse_guardian.TextSet.{TextSet, member, insert, union}
use synapse_guardian.Glob.{glob_to_regex}
use synapse_guardian.Glob.Regex.{Pattern, matches}
use synapse_guardian.Policy.Kinds.{
  Kind, protected_user, allowed_server, allowed_user, blocked_user, blocked_server, unknown,
  kind_name,
}
use synapse_guardian.Policy.Patterns.{
  Invalid, key_error, server_of, validate_pattern, max_subject_len,
}

pub record Decision : Type 0 where
  pub allowed : Bool
  pub rule : Option Text

-- self.rule or "default-deny"
unfoldable pub reason : Decision → Text
reason d = elim d.rule [
  | none ↦ codes "default-deny"
  | some label ↦ elim label [ [] ↦ codes "default-deny" | c ∷ rest ↦ c ∷ rest ]
]

pub record Rule : Type 0 where
  pub kind : Kind
  pub pattern : Text
  pub regex : Pattern

unfoldable pub label : Rule → Text
label r = kind_name r.kind ++ codes ":" ++ r.pattern

pub record RuleSet : Type 0 where
  pub protected_users : TextSet
  pub blocked_users : List Rule
  pub allowed_users : List Rule
  pub blocked_servers : List Rule
  pub allowed_servers : List Rule

abbrev pub empty : RuleSet
empty = record {
  protected_users = [];
  blocked_users = [];
  allowed_users = [];
  blocked_servers = [];
  allowed_servers = [];
}

unfoldable pub merge : RuleSet → RuleSet → RuleSet
merge a b = record {
  protected_users = union a.protected_users b.protected_users;
  blocked_users = a.blocked_users ++ b.blocked_users;
  allowed_users = a.allowed_users ++ b.allowed_users;
  blocked_servers = a.blocked_servers ++ b.blocked_servers;
  allowed_servers = a.allowed_servers ++ b.allowed_servers;
}

-- a pair of the argument of `build`
abbrev pub Entry : Type 0
Entry = Kind × Text

-- rules[kind].append(rule)
abbrev pub append_rule : Kind → RuleSet → Rule → Result Invalid RuleSet
append_rule blocked_user rs rule = ok (record rs { blocked_users = rs.blocked_users ++ rule ∷ [] })
append_rule allowed_user rs rule = ok (record rs { allowed_users = rs.allowed_users ++ rule ∷ [] })
append_rule blocked_server rs rule =
    ok (record rs { blocked_servers = rs.blocked_servers ++ rule ∷ [] })
append_rule allowed_server rs rule =
    ok (record rs { allowed_servers = rs.allowed_servers ++ rule ∷ [] })
append_rule protected_user rs rule = err key_error
append_rule (unknown name) rs rule = err key_error

-- A call of `on_invalid`.
pub record Report : Type 0 where
  pub kind : Kind
  pub pattern : Text
  pub error : Invalid

-- the decision of the loop, or what follows it
abbrev pub or_else : Option Decision → Decision → Decision
or_else none next = next
or_else (some d) next = d

abbrev pub default_deny : Decision
default_deny = record { allowed = false; rule = none }

module _ ⦃u : Unicode⦄ where
  unfoldable pub rule_matches : Text → Rule → Bool
  rule_matches subject rule = matches rule.regex subject

  unfoldable pub compile_rule : Kind → Text → Result Invalid Rule
  compile_rule kind pattern = do
    validate_pattern kind pattern
    ok (record { kind = kind; pattern = pattern; regex = glob_to_regex pattern })

  -- One round of the loop of `build`. `rules[kind]` is looked up before the pattern is compiled.
  unfoldable pub add_entry : RuleSet → Entry → Result Invalid RuleSet
  unfolding compile_rule
  add_entry rs (protected_user, pattern) = do
    validate_pattern protected_user pattern
    ok (record rs { protected_users = insert (u.lower pattern) rs.protected_users })
  add_entry rs (unknown name, pattern) = err key_error
  add_entry rs (kind, pattern) = do rule ← compile_rule kind pattern; append_rule kind rs rule

  -- the loop of `build` where `on_invalid` is given: an invalid entry is reported and skipped
  unfoldable pub build_from : RuleSet → List Entry → RuleSet × List Report
  build_from rs [] = (rs, [])
  build_from rs (e ∷ entries) = elim (add_entry rs e) [
    | ok rs' ↦ build_from rs' entries
    | err reason ↦
        let (built, reports) = build_from rs entries in
        (built, record { kind = e.0; pattern = e.1; error = reason } ∷ reports)
  ]

  unfoldable pub build : List Entry → RuleSet × List Report
  unfolding build_from add_entry
  build entries = build_from empty entries

  -- `build` with no `on_invalid`: the first invalid entry raises
  unfoldable pub build_strict_from : RuleSet → List Entry → Result Report RuleSet
  build_strict_from rs [] = ok rs
  build_strict_from rs (e ∷ entries) = elim (add_entry rs e) [
    | ok rs' ↦ build_strict_from rs' entries
    | err reason ↦ err (record { kind = e.0; pattern = e.1; error = reason })
  ]

  unfoldable pub build_strict : List Entry → Result Report RuleSet
  unfolding build_strict_from add_entry
  build_strict entries = build_strict_from empty entries

  unfoldable pub is_protected : RuleSet → Text → Bool
  is_protected rs user_id = member (u.lower user_id) rs.protected_users

  -- a `for` loop of `evaluate`: the first rule that matches decides
  unfoldable pub deciding : Bool → Text → List Rule → Option Decision
  deciding allowed subject [] = none
  deciding allowed subject (rule ∷ rules) =
      let rest = deciding allowed subject rules in
      if rule_matches subject rule
      then some (record { allowed = allowed; rule = some (label rule) })
      else rest

  unfoldable pub evaluate_at : RuleSet → Text → Text → Decision
  evaluate_at rs user_id server = or_else (deciding false user_id rs.blocked_users) (
      or_else (deciding true user_id rs.allowed_users) (
        or_else (deciding false server rs.blocked_servers)
          (or_else (deciding true server rs.allowed_servers) default_deny)))

  unfoldable pub evaluate : RuleSet → Text → Decision
  unfolding evaluate_at
  evaluate rs other_user_id =
      if ltb max_subject_len (length other_user_id)
      then default_deny
      else elim (server_of other_user_id) [
        | err _ ↦ default_deny
        | ok server ↦ evaluate_at rs other_user_id server
      ]
