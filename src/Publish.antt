-- ===== src/Publish.antt =====
-- synapse_guardian/publish.py: `RoomPublisher`, which keeps `guardian.effective_rules` up to date.
pub mod Once
pub mod History
use synapse_guardian.Prelude.{
  Bool, true, false, List, [], ◌∷◌, Option, none, some, if◌then◌else◌, Text, codes, text_eq,
}
use synapse_guardian.Value.{Value, bool, str, obj, Fields, end, field}
use synapse_guardian.Value.Equal.{value_eq}
use synapse_guardian.Matrix.{Event, RoomState, Filter, state_at}
use synapse_guardian.Policy.Rules.{RuleSet}
use synapse_guardian.Policy.Payload.{to_payload}
use synapse_guardian.Config.{JoinPolicy, deny, known_rooms}

abbrev pub effective_rules_type : Text
effective_rules_type = codes "guardian.effective_rules"

-- The answers of the API to one call of `publish`: the state of the room (`none` is an exception), and
-- whether the event can be sent.
pub record Room : Type 0 where
  pub state : Option RoomState
  pub can_send : Bool

pub record Publisher : Type 0 where
  pub last : Option Value
  pub primed : Bool
  pub warned : Bool

abbrev pub new_publisher : Publisher
new_publisher = record { last = none; primed = false; warned = false }

unfoldable pub policy_name : JoinPolicy → Text
policy_name deny = codes "deny"
policy_name known_rooms = codes "known_rooms"

unfoldable pub payload_of : RuleSet → RuleSet → Bool → JoinPolicy → Value
unfolding policy_name
payload_of static effective dry_run uninvited_joins = obj (
    field (codes "static") (to_payload static) (
      field (codes "effective") (to_payload effective) (
        field (codes "dry_run") (bool dry_run)
          (field (codes "uninvited_joins") (str (policy_name uninvited_joins)) end))))

-- {k: v for k, v in content.items() if k != key}
unfoldable pub without : Text → Fields → Fields
without key end = end
without key (field k v rest) =
    let others = without key rest in if text_eq k key then others else field k v others

-- the payload in an event's content
unfoldable pub content_payload : Value → Option Value
unfolding without
content_payload (obj (field k v rest)) = some (obj (without (codes "updated_ts") (field k v rest)))
content_payload _ = none

unfoldable pub payload_in : RoomState → Option Value
unfolding content_payload
payload_in state = elim (state_at effective_rules_type [] state) [
  | none ↦ none
  | some e ↦ content_payload e.content
]

-- `_published`
unfoldable pub published : Room → Option Value
unfolding payload_in
published room = elim room.state [ none ↦ none | some state ↦ payload_in state ]

-- the first call looks at what the room holds
unfoldable pub prime : Room → Publisher → Publisher
prime room p = if p.primed then p else record p { last = published room; primed = true }

-- self._last == payload
unfoldable pub is_last : Option Value → Value → Bool
is_last none payload = false
is_last (some v) payload = value_eq v payload

-- `create_and_send_event_into_room`, and what follows it
unfoldable pub send : Room → Value → Publisher → Bool × Publisher × List Value
send room payload p =
    if room.can_send
    then (true, record p { warned = false; last = some payload }, payload ∷ [])
    else (false, record p { warned = true }, [])

unfoldable pub publish_payload : Room → Value → Publisher → Bool × Publisher × List Value
publish_payload room payload p =
    if is_last p.last payload then (true, p, []) else send room payload p

-- `publish`: whether it worked, the state, and the contents of the events sent
unfoldable pub publish :
    Room → RuleSet → RuleSet → Bool → JoinPolicy → Publisher → Bool × Publisher × List Value
publish room static effective dry_run uninvited_joins p =
    publish_payload room (payload_of static effective dry_run uninvited_joins) (prime room p)
