-- ===== src/Policy/Payload/RoundTrip.antt =====
-- A published rule set reads back as itself.
use synapse_guardian.Prelude.{
  ◌≡◌, refl, ap, ◌∙◌, List, [], ◌∷◌, ◌++◌, map, arith, Text, All, append-nil, append_assoc, text_eq,
}
use synapse_guardian.Prelude.Result.{ok}
use synapse_guardian.Unicode.{Unicode}
use synapse_guardian.TextSet.{insert, union}
use synapse_guardian.TextSet.Order.{union-nil_sorted}
use synapse_guardian.Value.{texts, items_of_texts, get, lookup}
use synapse_guardian.Policy.Kinds.{
  Kind, protected_user, allowed_server, allowed_user, blocked_user, blocked_server, plural,
  all_kinds,
}
use synapse_guardian.Policy.Patterns.{validate_pattern}
use synapse_guardian.Policy.Rules.{
  Rule, RuleSet, Entry, empty, compile_rule, add_entry, build_from, build,
}
use synapse_guardian.Policy.Building.{IsRuleOf, IsWellFormed}
use synapse_guardian.Policy.Payload.{
  patterns_of, payload_fields, to_payload, from_payload, payload_entries, all_entries, entries,
}

texts-items_of_texts : (ts : List Text) → texts (items_of_texts ts) ≡ ts
unfolding texts items_of_texts
texts-items_of_texts [] = refl
texts-items_of_texts (t ∷ ts) = ap (◌∷◌ t) (texts-items_of_texts ts)

payload_entries-protected :
    (rs : RuleSet)
    → payload_entries (payload_fields rs) protected_user
      ≡ map (λ p. (protected_user, p)) rs.protected_users
unfolding payload_entries payload_fields get lookup plural text_eq
payload_entries-protected rs =
    ap (map (λ p. (protected_user, p))) (texts-items_of_texts rs.protected_users)

payload_entries-blocked_user :
    (rs : RuleSet)
    → payload_entries (payload_fields rs) blocked_user
      ≡ map (λ p. (blocked_user, p)) (patterns_of blocked_user rs)
unfolding payload_entries payload_fields get lookup plural text_eq
payload_entries-blocked_user rs =
    ap (map (λ p. (blocked_user, p))) (texts-items_of_texts (patterns_of blocked_user rs))

payload_entries-allowed_user :
    (rs : RuleSet)
    → payload_entries (payload_fields rs) allowed_user
      ≡ map (λ p. (allowed_user, p)) (patterns_of allowed_user rs)
unfolding payload_entries payload_fields get lookup plural text_eq
payload_entries-allowed_user rs =
    ap (map (λ p. (allowed_user, p))) (texts-items_of_texts (patterns_of allowed_user rs))

payload_entries-blocked_server :
    (rs : RuleSet)
    → payload_entries (payload_fields rs) blocked_server
      ≡ map (λ p. (blocked_server, p)) (patterns_of blocked_server rs)
unfolding payload_entries payload_fields get lookup plural text_eq
payload_entries-blocked_server rs =
    ap (map (λ p. (blocked_server, p))) (texts-items_of_texts (patterns_of blocked_server rs))

payload_entries-allowed_server :
    (rs : RuleSet)
    → payload_entries (payload_fields rs) allowed_server
      ≡ map (λ p. (allowed_server, p)) (patterns_of allowed_server rs)
unfolding payload_entries payload_fields get lookup plural text_eq
payload_entries-allowed_server rs =
    ap (map (λ p. (allowed_server, p))) (texts-items_of_texts (patterns_of allowed_server rs))

all_entries_lem : (rs : RuleSet) → all_entries (payload_fields rs) all_kinds ≡ entries rs
unfolding all_entries all_kinds entries
all_entries_lem rs = rw (
  payload_entries-protected rs,
  payload_entries-blocked_user rs,
  payload_entries-allowed_user rs,
  payload_entries-blocked_server rs,
  payload_entries-allowed_server rs,
)

module _ ⦃u : Unicode⦄ where
  -- what is read back is built from the entries of the rule set, in order
  from_payload-to_payload-entries :
      (rs : RuleSet) → from_payload (to_payload rs) ≡ (build (entries rs)).0
  unfolding from_payload entries
  from_payload-to_payload-entries rs =
      unfold to_payload in (ap (λ (es : List Entry). (build es).0) (all_entries_lem rs))

  -- An accepted protected user that lower-casing leaves as it is.
  pub record IsStable (id : Text) : Type 0 where
    pub lower_fixed : u.lower id ≡ id
    pub valid : validate_pattern protected_user id ≡ ok tt

  build_from-protected :
      (rs : RuleSet) (ids : List Text) (rest : List Entry)
      → All IsStable ids
      → build_from rs (map (λ p. (protected_user, p)) ids ++ rest)
        ≡ build_from (record rs { protected_users = union rs.protected_users ids }) rest
  unfolding build_from union
  build_from-protected rs [] rest a = refl
  build_from-protected rs (id ∷ ids) rest a =
      let next = record rs { protected_users = insert id rs.protected_users } in
      let e : add_entry rs (protected_user, id) ≡ ok next =
        (unfold add_entry in rw (a.0.valid, a.0.lower_fixed)) in
      rw (e, build_from) (build_from-protected next ids rest a.1)

  rule-eta : (kind : Kind) (r : Rule) → IsRuleOf kind r → compile_rule kind r.pattern ≡ ok r
  unfolding compile_rule
  rule-eta kind r v = rw v.valid (ground (arith, v.compiled, v.of_kind))

  build_from-blocked_users :
      (rs : RuleSet) (rules : List Rule) (rest : List Entry)
      → All (IsRuleOf blocked_user) rules
      → build_from rs (map (λ p. (blocked_user, p)) (map (λ r. r.pattern) rules) ++ rest)
        ≡ build_from (record rs { blocked_users = rs.blocked_users ++ rules }) rest
  unfolding build_from
  build_from-blocked_users rs [] rest a = rw append-nil
  build_from-blocked_users rs (r ∷ rules) rest a =
      let next = record rs { blocked_users = rs.blocked_users ++ r ∷ [] } in
      let e : add_entry rs (blocked_user, r.pattern) ≡ ok next =
        (unfold add_entry in rw (rule-eta blocked_user r a.0)) in
      rw (e, build_from)
        (build_from-blocked_users next rules rest a.1
          ∙ rw (append_assoc rs.blocked_users (r ∷ []) rules))

  build_from-allowed_users :
      (rs : RuleSet) (rules : List Rule) (rest : List Entry)
      → All (IsRuleOf allowed_user) rules
      → build_from rs (map (λ p. (allowed_user, p)) (map (λ r. r.pattern) rules) ++ rest)
        ≡ build_from (record rs { allowed_users = rs.allowed_users ++ rules }) rest
  unfolding build_from
  build_from-allowed_users rs [] rest a = rw append-nil
  build_from-allowed_users rs (r ∷ rules) rest a =
      let next = record rs { allowed_users = rs.allowed_users ++ r ∷ [] } in
      let e : add_entry rs (allowed_user, r.pattern) ≡ ok next =
        (unfold add_entry in rw (rule-eta allowed_user r a.0)) in
      rw (e, build_from)
        (build_from-allowed_users next rules rest a.1
          ∙ rw (append_assoc rs.allowed_users (r ∷ []) rules))

  build_from-blocked_servers :
      (rs : RuleSet) (rules : List Rule) (rest : List Entry)
      → All (IsRuleOf blocked_server) rules
      → build_from rs (map (λ p. (blocked_server, p)) (map (λ r. r.pattern) rules) ++ rest)
        ≡ build_from (record rs { blocked_servers = rs.blocked_servers ++ rules }) rest
  unfolding build_from
  build_from-blocked_servers rs [] rest a = rw append-nil
  build_from-blocked_servers rs (r ∷ rules) rest a =
      let next = record rs { blocked_servers = rs.blocked_servers ++ r ∷ [] } in
      let e : add_entry rs (blocked_server, r.pattern) ≡ ok next =
        (unfold add_entry in rw (rule-eta blocked_server r a.0)) in
      rw (e, build_from)
        (build_from-blocked_servers next rules rest a.1
          ∙ rw (append_assoc rs.blocked_servers (r ∷ []) rules))

  build_from-allowed_servers :
      (rs : RuleSet) (rules : List Rule) (rest : List Entry)
      → All (IsRuleOf allowed_server) rules
      → build_from rs (map (λ p. (allowed_server, p)) (map (λ r. r.pattern) rules) ++ rest)
        ≡ build_from (record rs { allowed_servers = rs.allowed_servers ++ rules }) rest
  unfolding build_from
  build_from-allowed_servers rs [] rest a = rw append-nil
  build_from-allowed_servers rs (r ∷ rules) rest a =
      let next = record rs { allowed_servers = rs.allowed_servers ++ r ∷ [] } in
      let e : add_entry rs (allowed_server, r.pattern) ≡ ok next =
        (unfold add_entry in rw (rule-eta allowed_server r a.0)) in
      rw (e, build_from)
        (build_from-allowed_servers next rules rest a.1
          ∙ rw (append_assoc rs.allowed_servers (r ∷ []) rules))

  rebuild :
      (rs : RuleSet)
      → IsWellFormed rs
      → All IsStable rs.protected_users
      → (build (entries rs)).0 ≡ rs
  unfolding build entries
  rebuild rs w s =
      rw
        (
          build_from-protected empty rs.protected_users _ s,
          union-nil_sorted rs.protected_users w.protected_sorted,
          build_from-blocked_users _ rs.blocked_users _ w.blocked_users_valid,
          build_from-allowed_users _ rs.allowed_users _ w.allowed_users_valid,
          build_from-blocked_servers _ rs.blocked_servers _ w.blocked_servers_valid,
          build_from-allowed_servers _ rs.allowed_servers _ w.allowed_servers_valid,
        )
        (unfold build_from in refl)

  -- A well-formed rule set whose protected users are accepted as they are stored is read back
  -- from its payload unchanged.
  pub from_payload-to_payload :
      (rs : RuleSet)
      → IsWellFormed rs
      → All IsStable rs.protected_users
      → from_payload (to_payload rs) ≡ rs
  from_payload-to_payload rs w s = from_payload-to_payload-entries rs ∙ rebuild rs w s
