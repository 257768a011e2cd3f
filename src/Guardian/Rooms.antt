-- ===== src/Guardian/Rooms.antt =====
-- The callbacks that keep a protected user's rooms closed: creation, aliases, state and the room
-- directory.
pub mod Decisions
use synapse_guardian.Prelude.Steps.{◌>>=◌}
use synapse_guardian.Prelude.{
  Bool, true, false, List, [], ◌∷◌, ◌++◌, Option, none, some, if◌then◌else◌, Text, codes, text_eq,
}
use synapse_guardian.Prelude.Result.{Result, ok, err}
use synapse_guardian.Unicode.{Unicode}
use synapse_guardian.Value.{Value, is_text}
use synapse_guardian.Policy.Rules.{RuleSet, is_protected}
use synapse_guardian.Guardian.{
  Setup, World, Verdict, not_spam, Exec, pure, catch, rules, block, fail_closed,
}
use synapse_guardian.Guardian.Reasons.{join_rule_of, open_room_reason}
use synapse_guardian.Guardian.Invites.{refuse_protected}

-- f"{what}-disabled"
abbrev pub disabled : Text → Text
disabled what = what ++ codes "-disabled"

-- The kind of a state event that may open a room, if `user_may_send_state_event` refuses it.
unfoldable pub opening_kind : Text → Value → Option Text
opening_kind event_type content =
    if text_eq event_type (codes "m.room.join_rules")
    then (if is_text (codes "invite") (join_rule_of content)
        then none
        else some (codes "join_rules"))
    else if text_eq event_type (codes "m.room.canonical_alias")
    then some (codes "canonical_alias")
    else none

module _ ⦃u : Unicode⦄ (setup : Setup) (world : World) where
  unfoldable pub refuse_opening : Text → Option Text → Exec Verdict
  refuse_opening user_id none = pure not_spam
  refuse_opening user_id (some why) =
      block setup world (codes "create-room") user_id why none (disabled why)

  unfoldable pub user_may_create_room : Text → Value → Exec Verdict
  unfolding refuse_opening
  user_may_create_room user_id room_config =
      refuse_protected setup world user_id (refuse_opening user_id (open_room_reason room_config))

  unfoldable pub user_may_create_room_alias : Text → Text → Exec Verdict
  user_may_create_room_alias user_id room_alias =
      refuse_protected setup world user_id
        (block setup world (codes "alias") user_id room_alias none (codes "aliases-disabled"))

  unfoldable pub refuse_state : Text → Text → Option Text → Exec Verdict
  refuse_state user_id room_id none = pure not_spam
  refuse_state user_id room_id (some kind) =
      refuse_protected setup world user_id
        (block setup world kind user_id room_id (some room_id) (disabled kind))

  unfoldable pub user_may_send_state_event : Text → Text → Text → Text → Value → Exec Verdict
  unfolding refuse_state
  user_may_send_state_event user_id room_id event_type state_key content =
      refuse_state user_id room_id (opening_kind event_type content)

  unfoldable pub user_may_publish_room : Text → Text → Exec Verdict
  user_may_publish_room user_id room_id = refuse_protected setup world user_id (
      block setup world (codes "publish") user_id room_id (some room_id)
        (codes "publishing-disabled"))
