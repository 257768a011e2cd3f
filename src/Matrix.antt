-- ===== src/Matrix.antt =====
-- What Synapse gives the module: events, room state and the module API. The API is a parameter;
-- its answers are functions of the question, for the time that one callback or refresh takes.
use synapse_guardian.Prelude.{Bool, ◌&&◌, List, Option, Text, text_eq, find_first}
use synapse_guardian.Value.{Value}

pub record Event : Type 0 where
  pub type : Text
  pub state_key : Text
  pub sender : Value
  pub content : Value

-- A mapping of (type, state_key) to events, in its order.
abbrev pub RoomState : Type 0
RoomState = List Event

-- state.get((type, state_key))
unfoldable pub state_at : Text → Text → RoomState → Option Event
state_at type state_key = find_first (λ e. text_eq e.type type && text_eq e.state_key state_key)

-- An event filter: types, each with a state key or with any.
abbrev pub Filter : Type 0
Filter = List (Text × Option Text)

-- `none` is an exception.
pub record Api : Type 0 where
  pub is_mine : Text → Bool
  pub is_user_admin : Text → Option Bool
  pub get_room_state : Text → Filter → Option RoomState
