-- ===== src/Tests/Rooms.antt =====
-- The callbacks that keep rooms closed, and those for events, on concrete requests.
use synapse_guardian.Prelude.{◌≡◌, refl, ◌↔◌, true, ◌&&◌, [], some, codes, is_given}
use synapse_guardian.Prelude.Result.{ok}
use synapse_guardian.Unicode.{ascii}
use synapse_guardian.Value.{Value, end, field, str, obj, as_text}
use synapse_guardian.Policy.Rules.{is_protected}
use synapse_guardian.Guardian.{new_guardian}
use synapse_guardian.Guardian.Closed.{loaded}
use synapse_guardian.Guardian.Reasons.{open_room_reason}
use synapse_guardian.Guardian.Reasons.OpenRooms.{Opens, open_room_reason_iff}
use synapse_guardian.Guardian.Invites.{InviteEvent, user_may_send_3pid_invite}
use synapse_guardian.Guardian.Invites.Decisions.{verdict_if}
use synapse_guardian.Guardian.Rooms.{
  user_may_create_room, user_may_create_room_alias, user_may_send_state_event,
  user_may_publish_room,
}
use synapse_guardian.Guardian.Rooms.Decisions.{
  may_open, protected_users_are_refused, user_may_create_room_lem, user_may_send_state_event_lem,
}
use synapse_guardian.Guardian.Events.{check_event_allowed}
use synapse_guardian.Guardian.Events.Decisions.{
  is_local_protected, is_vetoed, check_event_allowed_lem,
}
use synapse_guardian.Tests.Policies.{kid}
use synapse_guardian.Tests.Guardians.{live, world, invite}

protected_users_are_refused_example :
    let verdict = ok (verdict_if (is_protected (loaded live world new_guardian) kid)) in
    ((user_may_send_3pid_invite live world kid
        (codes "email")
        (codes "a@b")
        (codes "!r:h.org")
        new_guardian).0
      ≡ verdict)
    × ((user_may_create_room_alias live world kid (codes "#a:h.org") new_guardian).0 ≡ verdict)
    × ((user_may_publish_room live world kid (codes "!r:h.org") new_guardian).0 ≡ verdict)
protected_users_are_refused_example =
    protected_users_are_refused live world refl kid (codes "email") (codes "a@b") (codes "!r:h.org")
      (codes "#a:h.org") new_guardian

abbrev public_room : Value
public_room = obj (field (codes "visibility") (str (codes "public")) end)

user_may_create_room_lem_example :
    (user_may_create_room live world kid public_room new_guardian).0
    ≡ ok (
        verdict_if (
          is_given (open_room_reason public_room)
          && is_protected (loaded live world new_guardian) kid))
user_may_create_room_lem_example =
    user_may_create_room_lem live world refl kid public_room new_guardian

abbrev knock_rule : Value
knock_rule = obj (field (codes "join_rule") (str (codes "knock")) end)

user_may_send_state_event_lem_example :
    (user_may_send_state_event live world kid
      (codes "!r:h.org")
      (codes "m.room.join_rules")
      []
      knock_rule
      new_guardian).0
    ≡ ok (
        verdict_if (
          may_open (codes "m.room.join_rules") knock_rule
          && is_protected (loaded live world new_guardian) kid))
user_may_send_state_event_lem_example =
    user_may_send_state_event_lem live world refl kid (codes "!r:h.org") (codes "m.room.join_rules")
      [] knock_rule new_guardian

abbrev knock : InviteEvent
knock = record invite {
  content = obj (field (codes "membership") (str (codes "knock")) end);
  sender = str kid;
}

check_event_allowed_lem_example :
    (check_event_allowed live world knock new_guardian).0
    ≡ ok (
        verdict_if
          (is_local_protected world (loaded live world new_guardian) (some kid) && is_vetoed knock))
unfolding as_text
check_event_allowed_lem_example = check_event_allowed_lem live world refl knock new_guardian

open_room_reason_iff_example : (is_given (open_room_reason public_room) ≡ true) ↔ Opens public_room
open_room_reason_iff_example = open_room_reason_iff public_room
