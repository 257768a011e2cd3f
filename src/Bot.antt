-- ===== src/Bot.antt =====
-- bot/guardian_bot/__init__.py: how the maubot plugin reads, adds and removes the rules of the control
-- room. What the plugin sends changes the room's state, event by event.
pub mod Agreement
pub mod Links
pub mod Listing
pub mod Chat
pub mod Requests
pub mod Commands
pub mod Keys
pub mod Removal
pub mod Adding
pub mod Checking
pub mod Webhook
use synapse_guardian.Prelude.{
  Bool, true, false, not, ◌&&◌, List, [], ◌∷◌, ◌++◌, Option, none, some, if◌then◌else◌, Text, codes,
  text_eq, keep, map, starts_with, any, ◌||◌,
}
use synapse_guardian.Prelude.Result.{Result, ok, err}
use synapse_guardian.Unicode.{Unicode}
use synapse_guardian.Value.Int.{ℤ, leb_ℤ}
use synapse_guardian.Value.{Value, str, obj, other, Fields, end, field, get_or, as_text, int, null}
use synapse_guardian.Matrix.{Event, RoomState}
use synapse_guardian.Policy.Kinds.{
  Kind, protected_user, allowed_server, allowed_user, blocked_user, blocked_server, kind_name,
}
use synapse_guardian.Policy.Patterns.{Invalid, validate_pattern}
use synapse_guardian.Policy.Power.{user_power_level, event_power_level}
use synapse_guardian.Config.{set_or_none}
use synapse_guardian.Store.{event_type_of, find_kind, power_levels_type, create_type}

-- KINDS
unfoldable pub bot_kinds : List Kind
bot_kinds = protected_user ∷ allowed_server ∷ allowed_user ∷ blocked_user ∷ blocked_server ∷ []

-- (kind, entity, state_key, content)
pub record BotEntry : Type 0 where
  pub kind : Kind
  pub entity : Text
  pub state_key : Text
  pub content : Fields

-- entity[1:] if entity.startswith("@") else entity
unfoldable pub state_key_for : Text → Text
state_key_for [] = []
state_key_for (c ∷ rest) = if starts_with b'@' (c ∷ rest) then rest else c ∷ rest

-- _content_dict; what is no mapping becomes an empty one
unfoldable pub content_dict : Value → Fields
content_dict (obj content) = content
content_dict _ = end

-- an entry, unless its content is empty or names no text
unfoldable pub named_entry : Kind → Event → Fields → Option BotEntry
named_entry kind e end = none
named_entry kind e (field k v rest) =
    elim (as_text (get_or (codes "entity") (str e.state_key) (field k v rest))) [
      | none ↦ none
      | some entity ↦ some (record {
        kind = kind;
        entity = entity;
        state_key = e.state_key;
        content = field k v rest;
      })
    ]

-- one round of the loop of `entries_from_state`; `none` is a `continue`
unfoldable pub bot_entry_of : Event → Option BotEntry
bot_entry_of e = elim (find_kind e.type bot_kinds) [
  | none ↦ none
  | some kind ↦ named_entry kind e (content_dict e.content)
]

abbrev pub push_entry : Option BotEntry → List BotEntry → List BotEntry
push_entry none out = out
push_entry (some entry) out = entry ∷ out

unfoldable pub entries_from_state : RoomState → List BotEntry
entries_from_state [] = []
entries_from_state (e ∷ state) = push_entry (bot_entry_of e) (entries_from_state state)

-- the room's state after an event is sent with this type and state key
unfoldable pub is_at : Text → Text → Event → Bool
is_at type state_key e = text_eq e.type type && text_eq e.state_key state_key

unfoldable pub send_state_event : Event → RoomState → RoomState
send_state_event new state = keep (λ e. not (is_at new.type new.state_key e)) state ++ new ∷ []

abbrev pub is_empty_list : List Text → Bool
is_empty_list [] = true
is_empty_list (x ∷ xs) = false

module _ ⦃u : Unicode⦄ where
  -- the entries that `remove` looks for
  unfoldable pub is_named : Kind → Text → BotEntry → Bool
  is_named kind entity entry =
      text_eq (kind_name entry.kind) (kind_name kind)
      && text_eq (u.lower entry.entity) (u.lower entity)

  unfoldable pub keys_of : Kind → Text → RoomState → List Text
  keys_of kind entity state =
      map (λ (entry : BotEntry). entry.state_key)
        (keep (is_named kind entity) (entries_from_state state))

  -- the content that `write_entry` sends; `sender` is who gave the command
  unfoldable pub entry_content : Text → Text → ℤ → Option Text → Fields
  entry_content entity sender ts reason = field (codes "entity") (str entity) (
      field (codes "added_by") (str sender) (
        field (codes "ts") (int ts) (elim (set_or_none reason) [
          | none ↦ end
          | some why ↦ field (codes "reason") (str why) end
        ])))

  content_of_last : Text → RoomState → Option Event
  content_of_last type [] = none
  content_of_last type (e ∷ state) = elim (content_of_last type state) [
    | some later ↦ some later
    | none ↦ if text_eq e.type type then some e else none
  ]

  abbrev levels_of : Option Event → Fields
  levels_of none = end
  levels_of (some e) = content_dict e.content

  -- `RoomAuthority.from_state`, and `power_of`
  unfoldable pub bot_power_of : RoomState → Text → ℤ
  unfolding content_of_last
  bot_power_of state user_id =
      let levels = obj (levels_of (content_of_last power_levels_type state)) in
      elim (content_of_last create_type state) [
        | none ↦ user_power_level levels user_id none null
        | some create ↦
            user_power_level levels user_id (as_text create.sender)
              (obj (content_dict create.content))
      ]

  -- `RoomAuthority.from_state`, and `needed_for` the event type of a kind
  unfoldable pub bot_needed_for : RoomState → Kind → ℤ
  unfolding content_of_last
  bot_needed_for state kind =
      event_power_level (obj (levels_of (content_of_last power_levels_type state)))
        (event_type_of kind) true
