-- ===== src/Guardian/Invites.antt =====
-- The callbacks for invites.
pub mod Decisions
use synapse_guardian.Prelude.Steps.{◌>>=◌}
use synapse_guardian.Prelude.{
  Bool, true, false, not, ◌&&◌, ◌||◌, List, [], ◌∷◌, ◌++◌, Option, none, some, if◌then◌else◌, Text,
  codes, text_eq,
}
use synapse_guardian.Prelude.Result.{Result, ok, err}
use synapse_guardian.Unicode.{Unicode}
use synapse_guardian.Value.{Value, is_text, as_text}
use synapse_guardian.Policy.Rules.{RuleSet, Decision, is_protected, evaluate, reason}
use synapse_guardian.Guardian.{
  Setup, World, Guardian, Verdict, not_spam, Raised, Exec, pure, catch, rules, block, fail_closed,
}
use synapse_guardian.Guardian.Reasons.{membership_of}

-- An event as a callback gets it. One from federation has not been validated yet.
pub record InviteEvent : Type 0 where
  pub type : Text
  pub content : Value
  pub state_key : Value
  pub sender : Value
  pub room_id : Text

module _ ⦃u : Unicode⦄ (setup : Setup) (world : World) where
  -- an invite of a protected user by somebody the rules do not allow is blocked
  unfoldable pub inbound : RuleSet → Text → Text → Text → Exec Verdict → Exec Verdict
  inbound rs inviter invitee room_id next =
      if is_protected rs invitee && not (evaluate rs inviter).allowed
      then block setup world (codes "invite") inviter invitee (some room_id)
          (reason (evaluate rs inviter))
      else next

  unfoldable pub outbound : RuleSet → Text → Text → Text → Exec Verdict → Exec Verdict
  outbound rs inviter invitee room_id next =
      if is_protected rs inviter && not (evaluate rs invitee).allowed
      then block setup world (codes "invite-out") inviter invitee (some room_id)
          (reason (evaluate rs invitee))
      else next

  -- from the line that has read the membership
  federated_invite : InviteEvent → Text → Text → Exec Verdict
  federated_invite e invitee inviter = do
    rs ← rules setup world
    inbound rs inviter invitee e.room_id (pure not_spam)

  -- With both identifiers texts, the handler names the invitee.
  federated_between : InviteEvent → Option Text → Option Text → Exec Verdict
  federated_between e (some invitee) (some inviter) =
      catch (federated_invite e invitee inviter) (fail_closed setup world (some invitee ∷ []))
  federated_between e _ _ = pure not_spam

  -- the test of the event's type and membership; what it raises names no user
  federated_membership : InviteEvent → Result Raised Value → Exec Verdict
  federated_membership e (err x) = fail_closed setup world (none ∷ [])
  federated_membership e (ok membership) =
      if is_text (codes "invite") membership
      then federated_between e (as_text e.state_key) (as_text e.sender)
      else pure not_spam

  unfoldable pub federated_user_may_invite : InviteEvent → Exec Verdict
  unfolding federated_membership federated_between federated_invite
  federated_user_may_invite e =
      if text_eq e.type (codes "m.room.member")
      then federated_membership e (membership_of e.content)
      else pure not_spam

  local_invite : Text → Text → Text → Exec Verdict
  local_invite inviter invitee room_id = do
    rs ← rules setup world
    inbound rs inviter invitee room_id (outbound rs inviter invitee room_id (pure not_spam))

  unfoldable pub user_may_invite : Text → Text → Text → Exec Verdict
  unfolding local_invite
  user_may_invite inviter invitee room_id =
      catch (local_invite inviter invitee room_id)
        (fail_closed setup world (some inviter ∷ some invitee ∷ []))

  -- the rule sets of the callbacks that refuse protected users altogether
  unfoldable pub refuse_protected : Text → Exec Verdict → Exec Verdict
  refuse_protected user_id refusal =
      catch (rules setup world >>= λ rs. if is_protected rs user_id then refusal else pure not_spam)
        (fail_closed setup world (some user_id ∷ []))

  unfoldable pub user_may_send_3pid_invite : Text → Text → Text → Text → Exec Verdict
  unfolding refuse_protected
  user_may_send_3pid_invite inviter medium address room_id = refuse_protected inviter (
      block setup world (codes "3pid-invite") inviter (medium ++ (codes ":" ++ address))
        (some room_id) (codes "3pid-invites-disabled"))
