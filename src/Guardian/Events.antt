-- ===== src/Guardian/Events.antt =====
-- The callbacks of the third-party rules: `check_event_allowed` and `on_new_event`.
pub mod Decisions
use synapse_guardian.Prelude.Steps.{◌>>=◌}
use synapse_guardian.Prelude.{
  Bool, true, false, not, ◌&&◌, List, [], ◌∷◌, ◌++◌, Option, none, some, if◌then◌else◌, Text, codes,
  text_eq,
}
use synapse_guardian.Prelude.Result.{Result, ok, err}
use synapse_guardian.Unicode.{Unicode}
use synapse_guardian.Value.{Value, obj, get, is_text, as_text}
use synapse_guardian.Policy.Rules.{RuleSet, is_protected}
use synapse_guardian.Store.{is_our_event_type}
use synapse_guardian.Store.Refresh.{invalidate}
use synapse_guardian.Guardian.{
  Setup, World, Guardian, Verdict, not_spam, forbidden, Raised, raised, Exec, pure, catch, rules,
  block, fail_closed,
}
use synapse_guardian.Guardian.Invites.{InviteEvent}
use synapse_guardian.Guardian.Joins.{lift}
use synapse_guardian.Guardian.Rooms.{disabled}

-- event.content.get(key); a content that is no mapping has no `get`
unfoldable pub content_get : Text → Value → Result Raised Value
content_get key (obj content) = ok (get key content)
content_get key _ = err raised

-- The kind that `check_event_allowed` refuses to a protected user.
unfoldable pub refused_kind : InviteEvent → Result Raised (Option Text)
refused_kind e =
    if text_eq e.type (codes "m.room.member")
    then elim (content_get (codes "membership") e.content) [
      | err x ↦ err x
      | ok membership ↦
          ok (if is_text (codes "knock") membership then some (codes "knock") else none)
    ]
    else if text_eq e.type (codes "m.room.join_rules")
    then elim (content_get (codes "join_rule") e.content) [
      | err x ↦ err x
      | ok join_rule ↦
          ok (if is_text (codes "invite") join_rule then none else some (codes "join_rules"))
    ]
    else if text_eq e.type (codes "m.room.canonical_alias")
    then ok (some (codes "canonical_alias"))
    else ok none

module _ ⦃u : Unicode⦄ (setup : Setup) (world : World) where
  unfoldable pub refuse_event : InviteEvent → Text → Option Text → Exec Verdict
  refuse_event e sender none = pure not_spam
  refuse_event e sender (some kind) =
      block setup world kind sender e.room_id (some e.room_id) (disabled kind)

  unfoldable pub check_sender : InviteEvent → Text → RuleSet → Exec Verdict
  unfolding refuse_event
  check_sender e sender rs =
      if is_protected rs sender
      then lift (refused_kind e) >>= refuse_event e sender
      else pure not_spam

  unfoldable pub check_from : InviteEvent → Option Text → Exec Verdict
  unfolding check_sender
  check_from e none = pure not_spam
  check_from e (some sender) =
      if world.api.is_mine sender
      then catch (rules setup world >>= check_sender e sender)
          (fail_closed setup world (some sender ∷ []))
      else pure not_spam

  -- The verdict; the callback answers whether it is `not_spam`.
  unfoldable pub check_event_allowed : InviteEvent → Exec Verdict
  unfolding check_from
  check_event_allowed e = check_from e (as_text e.sender)

-- `on_new_event`
unfoldable pub on_new_event : Setup → Text → Text → Guardian → Guardian
on_new_event setup room_id type g = elim setup.config.control_room [
  | none ↦ g
  | some control_room ↦
      if text_eq room_id control_room && is_our_event_type type
      then record g { store = invalidate g.store }
      else g
]
