-- ===== src/Guardian/Joins.antt =====
-- The callback for joins, with the second look at who sent an invite.
pub mod Decisions
pub mod DryRun
use synapse_guardian.Prelude.Steps.{◌>>=◌}
use synapse_guardian.Prelude.{
  Bool, true, false, not, List, [], ◌∷◌, ◌++◌, Option, none, some, if◌then◌else◌, Text, codes,
}
use synapse_guardian.Prelude.Result.{Result, ok, err}
use synapse_guardian.Unicode.{Unicode}
use synapse_guardian.Value.{as_text}
use synapse_guardian.Policy.Rules.{RuleSet, is_protected, evaluate, reason}
use synapse_guardian.Config.{JoinPolicy, deny, known_rooms}
use synapse_guardian.Guardian.{
  Setup, World, Lookup, unavailable, raises, found, Task, reject_invite, Guardian, Verdict,
  not_spam, forbidden, Raised, Exec, pure, catch, start, rules, block, fail_closed,
}
use synapse_guardian.Guardian.Reasons.{known_room_reason}

-- `_warn_no_inviter_lookup`
unfoldable pub warn_no_inviter_lookup : Guardian → Guardian
warn_no_inviter_lookup g = record g { warned_no_inviter_lookup = true }

inviter_found : Lookup → Exec (Option Text)
unfolding warn_no_inviter_lookup
inviter_found unavailable g = (ok none, warn_no_inviter_lookup g)
inviter_found raises g = (ok none, warn_no_inviter_lookup g)
inviter_found (found sender) g = (ok (as_text sender), g)

-- `_inviter`
unfoldable pub inviter : World → Text → Text → Exec (Option Text)
unfolding inviter_found
inviter world user_id room_id = inviter_found (world.inviter_of user_id room_id)

-- the result of a look that may raise
abbrev pub lift {ℓ} : {A : Type ℓ} → Result Raised A → Exec A
lift r g = (r, g)

module _ ⦃u : Unicode⦄ (setup : Setup) (world : World) where
  unfoldable pub stale_reason : RuleSet → Text → Text
  stale_reason rs sender =
      codes "inviter "
      ++ (sender ++ (codes " not allowed (" ++ (reason (evaluate rs sender) ++ codes ")")))

  -- what follows the block of an invited join
  unfoldable pub clear_invite : Text → Text → Text → Verdict → Exec Verdict
  clear_invite user_id room_id sender not_spam = pure not_spam
  clear_invite user_id room_id sender forbidden =
      start setup world (reject_invite user_id room_id sender) >>= λ t. pure forbidden

  unfoldable pub vetted_join : RuleSet → Text → Text → Option Text → Exec Verdict
  unfolding stale_reason clear_invite
  vetted_join rs user_id room_id none = pure not_spam
  vetted_join rs user_id room_id (some sender) =
      if (evaluate rs sender).allowed
      then pure not_spam
      else block setup world (codes "join") user_id room_id (some room_id) (stale_reason rs sender)
        >>= clear_invite user_id room_id sender

  -- `_invited_join_verdict`
  unfoldable pub invited_join_verdict : RuleSet → Text → Text → Exec Verdict
  unfolding vetted_join
  invited_join_verdict rs user_id room_id =
      inviter world user_id room_id >>= vetted_join rs user_id room_id

  unfoldable pub known_join : Text → Text → Option Text → Exec Verdict
  known_join user_id room_id none = pure not_spam
  known_join user_id room_id (some why) =
      block setup world (codes "join") user_id room_id (some room_id) why

  -- an uninvited join, under a policy
  unfoldable pub join_under : JoinPolicy → RuleSet → Text → Text → Exec Verdict
  unfolding known_join
  join_under deny rs user_id room_id =
      block setup world (codes "join") user_id room_id (some room_id)
        (codes "uninvited-joins-denied")
  join_under known_rooms rs user_id room_id =
      lift (known_room_reason world.api rs user_id room_id) >>= known_join user_id room_id

  unfoldable pub join_by : RuleSet → Text → Text → Bool → Exec Verdict
  unfolding invited_join_verdict join_under
  join_by rs user_id room_id is_invited =
      if not (is_protected rs user_id)
      then pure not_spam
      else if is_invited
      then invited_join_verdict rs user_id room_id
      else join_under setup.config.uninvited_joins rs user_id room_id

  unfoldable pub user_may_join_room : Text → Text → Bool → Exec Verdict
  unfolding join_by
  user_may_join_room user_id room_id is_invited =
      catch (rules setup world >>= λ rs. join_by rs user_id room_id is_invited)
        (fail_closed setup world (some user_id ∷ []))
