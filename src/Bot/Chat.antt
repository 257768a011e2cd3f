-- ===== src/Bot/Chat.antt =====
-- bot/guardian_bot/__init__.py: what the plugin's commands work with: its configuration, the client that
-- maubot gives it, messages and replies, and computations on the room that may raise.
use synapse_guardian.Prelude.{Bool, false, List, [], ◌∷◌, ◌++◌, Option, Text}
use synapse_guardian.Prelude.Result.{Result, ok, err}
use synapse_guardian.Value.Int.{ℤ}
use synapse_guardian.Value.{Value}
use synapse_guardian.Matrix.{Event, RoomState}
use synapse_guardian.Policy.Kinds.{Kind}
use synapse_guardian.Policy.Patterns.{Invalid}
use synapse_guardian.Policy.Rules.{Decision}
use synapse_guardian.Bot.Listing.{Line}

-- The plugin's configuration; a text that is empty is one that is not set.
pub record Settings : Type 0 where
  pub control_room : Option Text
  pub admins : List Text
  pub notify_secret : Option Text

-- What maubot gives the plugin: its own user ID, and what a call on the room as it stands raises, if it
-- raises. A call that does not raise reads the room or changes it.
pub record Client : Type 0 where
  pub mxid : Text
  pub read_error : RoomState → Option Text
  pub send_error : Event → RoomState → Option Text

-- A message that holds a command, and the time in milliseconds at which it is handled.
pub record Message : Type 0 where
  pub room_id : Text
  pub sender : Text
  pub formatted_body : Option Value
  pub now : ℤ

-- The texts of the replies, with what is filled in.
pub data Reply : Type 0 where
  not_admin : Reply
  unreadable : Text → Reply
  lacks_power : ℤ → ℤ → Reply
  refused : Text → Invalid → Reply
  added : Kind → Text → Reply
  no_entry removed : Kind → Text → Reply
  not_local : Text → Text → Reply
  protects_self : Reply
  usage : Text → Reply
  not_a_user : Text → Reply
  verdict : Text → Decision → Bool → Reply
  listing : List Line → Reply

-- The subcommands of `guard`, with their arguments.
pub data Call : Type 0 where
  protects : Text → Option Text → Call
  unprotects : Text → Call
  allows blocks : Text → Text → Option Text → Call
  removes unblocks : Text → Text → Call
  lists : Call
  checks : Text → Call

-- the room's state, and the replies in the order in which they were given
pub record Chat : Type 0 where
  pub state : RoomState
  pub replies : List Reply

abbrev pub Act {ℓ} : Type ℓ → Type ℓ
Act A = Chat → Result Text A × Chat

abbrev pub done : Act (Unit {0})
done c = (ok tt, c)

abbrev pub said : Reply → Chat → Chat
said answer c = record c { replies = c.replies ++ answer ∷ [] }

-- evt.reply
abbrev pub reply : Reply → Act (Unit {0})
reply answer c = (ok tt, said answer c)

-- What the source does not catch; the text is for the log.
abbrev pub raise : Text → Act (Unit {0})
raise why c = (err why, c)

abbrev pub deny_with : Reply → Act Bool
deny_with answer c = (ok false, said answer c)
