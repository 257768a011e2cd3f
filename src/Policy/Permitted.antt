-- ===== src/Policy/Permitted.antt =====
-- Who may interact with a protected user, said of the globs themselves and not of an order of
-- tests: the documented precedence of the four lists of rules.
use synapse_guardian.Prelude.{
  ◌≡◌, ◌≤◌, ◌⊎◌, false, List, [], ◌∷◌, ◌++◌, Text, length, has_char, All,
}
use synapse_guardian.Unicode.{Unicode}
use synapse_guardian.Glob.{glob_to_regex}
use synapse_guardian.Glob.Meaning.{GlobMatches}
use synapse_guardian.Policy.Rules.{Rule, RuleSet}

-- `@local:server`, where the server begins after the first colon
pub record IsMxid (user_id server : Text) : Type 0 where
  pub local : Text
  pub spelled : user_id ≡ b'@' ∷ local ++ b':' ∷ server
  pub first_colon : has_char b':' local ≡ false

module _ ⦃u : Unicode⦄ where
  -- the regex of the rule is the compiled pattern
  abbrev pub IsCompiledRule : Rule → Type 0
  IsCompiledRule r = r.regex ≡ glob_to_regex r.pattern

  pub record IsCompiled (rs : RuleSet) : Type 0 where
    pub compiled_blocked_users : All IsCompiledRule rs.blocked_users
    pub compiled_allowed_users : All IsCompiledRule rs.allowed_users
    pub compiled_blocked_servers : All IsCompiledRule rs.blocked_servers
    pub compiled_allowed_servers : All IsCompiledRule rs.allowed_servers

  -- some rule of the list has a pattern that the subject matches
  abbrev pub Hit : Text → List Rule → Type 0
  Hit subject [] = ⊥
  Hit subject (r ∷ rules) = GlobMatches r.pattern subject ⊎ Hit subject rules

  pub data Permitted (rs : RuleSet) (user_id : Text) : Type 0 where
    by_user :
        {server : Text}
        → IsMxid user_id server
        → length user_id ≤ 255
        → ¬ Hit user_id rs.blocked_users
        → Hit user_id rs.allowed_users
        → Permitted rs user_id
    by_server :
        {server : Text}
        → IsMxid user_id server
        → length user_id ≤ 255
        → ¬ Hit user_id rs.blocked_users
        → ¬ Hit server rs.blocked_servers
        → Hit server rs.allowed_servers
        → Permitted rs user_id
