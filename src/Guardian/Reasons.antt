-- ===== src/Guardian/Reasons.antt =====
-- The parts of the callbacks that only look: why a room is not known, and what would open a room.
pub mod KnownRooms
pub mod OpenRooms
use synapse_guardian.Prelude.{
  zero, Bool, true, false, not, ◌&&◌, ◌||◌, List, [], ◌∷◌, ◌++◌, Option, none, some, if◌then◌else◌,
  Text, codes, text_eq, is_empty,
}
use synapse_guardian.Prelude.Result.{Result, ok, err}
use synapse_guardian.Unicode.{Unicode}
use synapse_guardian.Value.Int.{ℤ, pos, negsuc}
use synapse_guardian.Value.{
  truthy, Value, null, bool, int, float, str, arr, obj, other, Items, nil, cons, Fields, end, field,
  get, is_text,
}
use synapse_guardian.Matrix.{Event, RoomState, Api, Filter}
use synapse_guardian.Policy.Rules.{RuleSet, evaluate, reason}
use synapse_guardian.Guardian.{Raised, raised}

-- event.content.get("membership"); a content that is no mapping has no `get`
unfoldable pub membership_of : Value → Result Raised Value
membership_of (obj content) = ok (get (codes "membership") content)
membership_of _ = err raised

-- membership in ("join", "invite")
unfoldable pub is_present : Value → Bool
is_present membership = is_text (codes "join") membership || is_text (codes "invite") membership

-- the first loop of `_known_room_reason`
unfoldable pub local_joined : Api → RoomState → Result Raised Bool
local_joined api [] = ok false
local_joined api (e ∷ state) =
    let rest = local_joined api state in
    elim (membership_of e.content) [
      | err x ↦ err x
      | ok membership ↦
          if is_text (codes "join") membership && api.is_mine e.state_key then ok true else rest
    ]

abbrev pub members_filter : Filter
members_filter = (codes "m.room.member", none) ∷ []

module _ ⦃u : Unicode⦄ where
  unfoldable pub member_reason : RuleSet → Text → Text
  member_reason rules member =
      codes "member "
      ++ (member ++ (codes " not allowed (" ++ (reason (evaluate rules member) ++ codes ")")))

  -- the second loop of `_known_room_reason`
  unfoldable pub stranger_reason : RuleSet → Text → RoomState → Result Raised (Option Text)
  stranger_reason rules user_id [] = ok none
  stranger_reason rules user_id (e ∷ state) =
      let rest = stranger_reason rules user_id state in
      elim (membership_of e.content) [
        | err x ↦ err x
        | ok membership ↦
            if not (is_present membership)
            then rest
            else if text_eq (u.lower e.state_key) (u.lower user_id)
            then rest
            else if (evaluate rules e.state_key).allowed
            then rest
            else ok (some (member_reason rules e.state_key))
      ]

  -- `_known_room_reason`, from the members of the room
  unfoldable pub room_reason : Api → RuleSet → Text → RoomState → Result Raised (Option Text)
  room_reason api rules user_id state = elim (local_joined api state) [
    | err x ↦ err x
    | ok false ↦ ok (some (codes "room-not-known"))
    | ok true ↦ stranger_reason rules user_id state
  ]

  unfoldable pub known_room_reason : Api → RuleSet → Text → Text → Result Raised (Option Text)
  known_room_reason api rules user_id room_id = elim (api.get_room_state room_id members_filter) [
    | none ↦ err raised
    | some state ↦ room_reason api rules user_id state
  ]

-- content.get("join_rule") if isinstance(content, Mapping) else None
unfoldable pub join_rule_of : Value → Value
join_rule_of (obj content) = get (codes "join_rule") content
join_rule_of _ = null

-- join_rule in (None, "invite")
unfoldable pub is_closed_rule : Value → Bool
is_closed_rule null = true
is_closed_rule v = is_text (codes "invite") v

-- an event of `initial_state` that sets open join rules
unfoldable pub opens_room : Value → Bool
opens_room (obj event) =
    is_text (codes "m.room.join_rules") (get (codes "type") event)
    && not (is_closed_rule (join_rule_of (get (codes "content") event)))
opens_room _ = false

unfoldable pub any_opens : Items → Bool
any_opens nil = false
any_opens (cons v events) = opens_room v || any_opens events

open_state : Value → Bool
open_state (arr events) = any_opens events
open_state _ = false

-- `_open_room_reason`
unfoldable pub open_room_reason : Value → Option Text
unfolding open_state
open_room_reason (obj room_config) =
    if is_text (codes "public") (get (codes "visibility") room_config)
    then some (codes "public-visibility")
    else if is_text (codes "public_chat") (get (codes "preset") room_config)
    then some (codes "public-preset")
    else if truthy (get (codes "room_alias_name") room_config)
    then some (codes "room-alias")
    else if open_state (get (codes "initial_state") room_config)
    then some (codes "open-join-rules")
    else none
open_room_reason _ = none
