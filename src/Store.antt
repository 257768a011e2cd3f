-- ===== src/Store.antt =====
-- synapse_guardian/store.py: the rules of the control room, merged with the static ones and kept
-- for a while. Times are in milliseconds. The senders' powers are read once per refresh by the
-- source, which gives the same as asking for each event, since the API answers as a function.
pub mod Reading
pub mod Untrusted
pub mod Refresh
pub mod Cache
pub mod Refinement
pub mod Admins
pub mod Races
use synapse_guardian.Prelude.{
  ℕ, ◌+◌, Bool, true, false, not, ◌&&◌, ◌||◌, List, [], ◌∷◌, ◌++◌, Option, none, some, leb,
  if◌then◌else◌, Text, codes, text_eq,
}
use synapse_guardian.Unicode.{Unicode}
use synapse_guardian.Value.Int.{ℤ, pos, leb_ℤ}
use synapse_guardian.Value.{Value, null, str, obj, Fields, end, field, get_or, as_text, as_mapping}
use synapse_guardian.Matrix.{Event, RoomState, state_at, Filter, Api}
use synapse_guardian.Policy.Kinds.{
  Kind, protected_user, allowed_server, allowed_user, blocked_user, blocked_server, kind_name,
  all_kinds,
}
use synapse_guardian.Policy.Power.{user_power_level, event_power_level}
use synapse_guardian.Policy.Rules.{RuleSet, Entry, build, merge}

-- EVENT_TYPE_PREFIX + kind
unfoldable pub event_type_of : Kind → Text
unfolding kind_name
event_type_of kind = codes "guardian." ++ kind_name kind

unfoldable pub find_kind : Text → List Kind → Option Kind
find_kind type [] = none
find_kind type (kind ∷ kinds) =
    let rest = find_kind type kinds in if text_eq type (event_type_of kind) then some kind else rest

-- EVENT_TYPES.get(event_type)
unfoldable pub kind_of_type : Text → Option Kind
unfolding find_kind event_type_of all_kinds
kind_of_type type = find_kind type all_kinds

-- is_our_event_type
unfoldable pub is_our_event_type : Text → Bool
is_our_event_type type = elim (kind_of_type type) [ none ↦ false | some kind ↦ true ]

abbrev pub power_levels_type : Text
power_levels_type = codes "m.room.power_levels"

abbrev pub create_type : Text
create_type = codes "m.room.create"

-- _RoomAuthority
pub record Authority : Type 0 where
  pub readable : Bool
  pub power_levels : Value
  pub create_sender : Option Text
  pub create_content : Value

content_of : Option Event → Value
content_of none = null
content_of (some e) = e.content

sender_of : Option Event → Option Text
sender_of none = none
sender_of (some e) = as_text e.sender

mapping_or_null : Value → Value
mapping_or_null (obj m) = obj m
mapping_or_null _ = null

pub authority_from : Option Event → Option Event → Authority
authority_from levels create = elim (as_mapping (content_of levels)) [
  | none ↦ record {
    readable = false;
    power_levels = null;
    create_sender = none;
    create_content = null;
  }
  | some m ↦ record {
    readable = true;
    power_levels = obj m;
    create_sender = sender_of create;
    create_content = mapping_or_null (content_of create);
  }
]

-- _RoomAuthority.from_state
unfoldable pub authority_of : RoomState → Authority
unfolding authority_from content_of sender_of mapping_or_null
authority_of state =
    authority_from (state_at power_levels_type [] state) (state_at create_type [] state)

-- _SenderPower
pub record SenderPower : Type 0 where
  pub local : Bool
  pub always : Bool
  pub power : ℤ

-- why a sender is refused
pub data Refusal : Type 0 where
  not_local unreadable : Refusal
  too_little : ℤ → ℤ → Refusal

abbrev refuse_by_power : ℤ → ℤ → Option Refusal
refuse_by_power power needed = if leb_ℤ needed power then none else some (too_little power needed)

-- entries.append, in front of what later rounds append; `none` is a `continue`
abbrev pub prepend : Option Entry → List Entry → List Entry
prepend none entries = entries
prepend (some entry) entries = entry ∷ entries

module _ ⦃u : Unicode⦄ where
  unfoldable pub power_of : Authority → Text → ℤ
  power_of a user_id = user_power_level a.power_levels user_id a.create_sender a.create_content

  unfoldable pub needed_for : Authority → Text → ℤ
  needed_for a event_type = event_power_level a.power_levels event_type true

  -- _SenderPower.refuse
  unfoldable pub refuse : SenderPower → Text → Authority → Option Refusal
  refuse p event_type a =
      if not p.local
      then some not_local
      else if p.always
      then none
      else if not a.readable
      then some unreadable
      else refuse_by_power p.power (needed_for a event_type)

  -- an admin check that fails counts as "not an admin"
  local_power : Api → Authority → Text → SenderPower
  local_power api a sender = elim (api.is_user_admin sender) [
    | some true ↦ record { local = true; always = true; power = pos 0 }
    | _ ↦ record { local = true; always = false; power = power_of a sender }
  ]

  abbrev no_power : SenderPower
  no_power = record { local = false; always = false; power = pos 0 }

  -- _sender_power
  unfoldable pub sender_power : Api → Authority → Value → SenderPower
  unfolding local_power
  sender_power api a (str sender) =
      if api.is_mine sender then local_power api a sender else no_power
  sender_power api a _ = no_power

  -- content.get("entity", state_key), if it is a text
  unfoldable pub entity_of : Event → Fields → Option Text
  entity_of e content = as_text (get_or (codes "entity") (str e.state_key) content)

  -- content of an entry that has not been removed
  unfoldable pub active_content : Value → Option Fields
  active_content (obj end) = none
  active_content (obj (field k v rest)) = some (field k v rest)
  active_content _ = none

  -- one round of the loop of `_read_control_room`; `none` is a `continue`
  unfoldable pub entry_of : Api → Authority → Event → Option Entry
  entry_of api a e = elim (kind_of_type e.type) [
    | none ↦ none
    | some kind ↦ elim (active_content e.content) [
      | none ↦ none
      | some content ↦ elim (refuse (sender_power api a e.sender) e.type a) [
        | some why ↦ none
        | none ↦ elim (entity_of e content) [ none ↦ none | some entity ↦ some (kind, entity) ]
      ]
    ]
  ]

  unfoldable pub entries_from : Api → Authority → RoomState → List Entry
  entries_from api a [] = []
  entries_from api a (e ∷ state) = prepend (entry_of api a e) (entries_from api a state)

  unfoldable pub room_rules : Api → RoomState → RuleSet
  room_rules api state = (build (entries_from api (authority_of state) state)).0
