-- ===== src/Guardian/Static.antt =====
-- What the static rules guarantee for invites, however the control room is used.
use synapse_guardian.Prelude.{◌≡◌, refl, sym, subst, ◌∙◌, true, false, List, Text, any}
use synapse_guardian.Prelude.Result.{ok}
use synapse_guardian.Unicode.{Unicode}
use synapse_guardian.Policy.Rules.{RuleSet, is_protected, rule_matches}
use synapse_guardian.Policy.Merging.{blocked-denied}
use synapse_guardian.Store.Refresh.{new_store, get_rules}
use synapse_guardian.Store.Cache.{Request, after, CoversStatic, get_rules-CoversStatic}
use synapse_guardian.Guardian.{Setup, World, Guardian, forbidden}
use synapse_guardian.Guardian.Closed.{loaded}
use synapse_guardian.Guardian.Invites.{user_may_invite}
use synapse_guardian.Guardian.Invites.Decisions.{is_unwanted, user_may_invite_lem}

module _ ⦃u : Unicode⦄ where
  covered_unwanted :
      (setup : Setup) (rs : RuleSet) (inviter invitee : Text)
      → CoversStatic setup.config rs
      → is_protected setup.config.static_rules invitee ≡ true
      → any (rule_matches inviter) setup.config.static_rules.blocked_users ≡ true
      → is_unwanted rs invitee inviter ≡ true
  unfolding is_unwanted
  covered_unwanted setup rs inviter invitee c there blocked =
      rw
        (
          c.covers_protected invitee there,
          blocked-denied rs inviter (c.covers_blocks inviter blocked),
        )
        refl

  -- Outside a dry run, after any history of loads and events, and whatever the control room holds
  -- and the API answers or raises, an invite of a statically protected user by a user whom a static
  -- `blocked_users` rule matches is forbidden.
  pub static_block_holds :
      (setup : Setup) (world : World) (requests : List (Request setup.config)) (g : Guardian)
      (inviter invitee room_id : Text)
      → setup.config.dry_run ≡ false
      → g.store ≡ after setup.config requests new_store
      → is_protected setup.config.static_rules invitee ≡ true
      → any (rule_matches inviter) setup.config.static_rules.blocked_users ≡ true
      → (user_may_invite setup world inviter invitee room_id g).0 ≡ ok forbidden
  static_block_holds setup world requests g inviter invitee room_id live history there blocked =
      let covers : CoversStatic setup.config (loaded setup world g) =
        subst
          (λ s.
            CoversStatic setup.config (get_rules setup.config world.api world.now world.later s).0)
          (sym history)
          (get_rules-CoversStatic setup.config requests world.api world.now world.later) in
      user_may_invite_lem setup world live inviter invitee room_id g
      ∙ rw (covered_unwanted setup (loaded setup world g) inviter invitee covers there blocked) refl
