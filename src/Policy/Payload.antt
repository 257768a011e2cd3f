-- ===== src/Policy/Payload.antt =====
-- `to_payload`, `from_payload` and `entries`: a rule set as a plain JSON value and back.
pub mod RoundTrip
use synapse_guardian.Prelude.{◌≡◌, List, [], ◌∷◌, ◌++◌, map, Option, none, some, Text}
use synapse_guardian.Unicode.{Unicode}
use synapse_guardian.TextSet.{TextSet}
use synapse_guardian.Value.{Value, arr, obj, Fields, end, field, get, texts, items_of_texts}
use synapse_guardian.Policy.Kinds.{
  Kind, protected_user, allowed_server, allowed_user, blocked_user, blocked_server, plural,
  rule_kinds, all_kinds,
}
use synapse_guardian.Policy.Rules.{Rule, RuleSet, Entry, empty, build}

-- getattr(self, PLURAL[kind]); there is no such list of rules for another kind
unfoldable pub rules_of : Kind → RuleSet → List Rule
rules_of blocked_user rs = rs.blocked_users
rules_of allowed_user rs = rs.allowed_users
rules_of blocked_server rs = rs.blocked_servers
rules_of allowed_server rs = rs.allowed_servers
rules_of _ rs = []

abbrev pub patterns_of : Kind → RuleSet → List Text
patterns_of kind rs = map (λ r. r.pattern) (rules_of kind rs)

rule_fields : RuleSet → List Kind → Fields
rule_fields rs [] = end
rule_fields rs (kind ∷ kinds) =
    field (plural kind) (arr (items_of_texts (patterns_of kind rs))) (rule_fields rs kinds)

unfoldable pub payload_fields : RuleSet → Fields
unfolding rule_fields rules_of rule_kinds
payload_fields rs =
    field (plural protected_user) (arr (items_of_texts rs.protected_users))
      (rule_fields rs rule_kinds)

unfoldable pub to_payload : RuleSet → Value
unfolding payload_fields
to_payload rs = obj (payload_fields rs)

-- the entries of one kind in a payload
unfoldable pub payload_entries : Fields → Kind → List Entry
payload_entries payload kind = elim (get (plural kind) payload) [
  | arr patterns ↦ map (λ p. (kind, p)) (texts patterns)
  | _ ↦ []
]

unfoldable pub all_entries : Fields → List Kind → List Entry
all_entries payload [] = []
all_entries payload (kind ∷ kinds) = payload_entries payload kind ++ all_entries payload kinds

unfoldable pub rule_entries : RuleSet → List Kind → List Entry
rule_entries rs [] = []
rule_entries rs (kind ∷ kinds) = map (λ p. (kind, p)) (patterns_of kind rs) ++ rule_entries rs kinds

-- self.entries()
unfoldable pub entries : RuleSet → List Entry
unfolding rules_of rule_entries rule_kinds
entries rs = map (λ p. (protected_user, p)) rs.protected_users ++ rule_entries rs rule_kinds

module _ ⦃u : Unicode⦄ where
  unfoldable pub from_payload : Value → RuleSet
  unfolding all_entries all_kinds
  from_payload (obj payload) = (build (all_entries payload all_kinds)).0
  from_payload _ = empty
