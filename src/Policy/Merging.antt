-- ===== src/Policy/Merging.antt =====
-- Merging the static rules with the rules of the control room.
use synapse_guardian.Prelude.{◌≡◌, refl, ◌∙◌, true, false, ◌||◌, arith, Text, any, any-append}
use synapse_guardian.Prelude.Result.{Result, ok, err}
use synapse_guardian.Unicode.{Unicode}
use synapse_guardian.TextSet.{member-union}
use synapse_guardian.Policy.Patterns.{NotUserId, server_of}
use synapse_guardian.Policy.Rules.{
  RuleSet, rule_matches, merge, is_protected, evaluate, evaluate_at,
}
use synapse_guardian.Policy.Evaluation.{allowed-evaluate_at}

module _ ⦃u : Unicode⦄ where
  -- A user is protected by merged rules exactly when one of the two rule sets protects them.
  pub is_protected-merge :
      (a b : RuleSet) (id : Text)
      → is_protected (merge a b) id ≡ (is_protected a id || is_protected b id)
  unfolding is_protected merge
  is_protected-merge a b id = member-union (u.lower id) a.protected_users b.protected_users

  denied_at :
      (rs : RuleSet) (id : Text)
      → ((server : Text) → (evaluate_at rs id server).allowed ≡ false)
      → (evaluate rs id).allowed ≡ false
  unfolding evaluate
  denied_at rs id h = at (server_of id) refl
    where
      at : (r : Result NotUserId Text) → server_of id ≡ r → (evaluate rs id).allowed ≡ false
      at (err e) p = ground arith
      at (ok server) p = ground (arith, h server)

  pub blocked-denied :
      (rs : RuleSet) (id : Text)
      → any (rule_matches id) rs.blocked_users ≡ true
      → (evaluate rs id).allowed ≡ false
  blocked-denied rs id h = denied_at rs id λ server. allowed-evaluate_at rs id server ∙ rw h refl

  -- A user whom a blocked_user rule of either rule set matches is denied by the merged rules,
  -- whatever the other rules say.
  pub merge_keeps_blocks :
      (a b : RuleSet) (id : Text)
      → (any (rule_matches id) a.blocked_users || any (rule_matches id) b.blocked_users) ≡ true
      → (evaluate (merge a b) id).allowed ≡ false
  unfolding merge
  merge_keeps_blocks a b id h =
      blocked-denied (merge a b) id
        (any-append (rule_matches id) a.blocked_users b.blocked_users ∙ h)
