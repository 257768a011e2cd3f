-- ===== src/Bot/Requests.antt =====
-- bot/guardian_bot/__init__.py: what the commands read of the control room and send there, once they may.
-- A request is a computation on the control room's state and on the replies given so far; it may raise
-- what the client raises, and keeps what it has done by then.
use synapse_guardian.Prelude.Steps.{continue, ◌>>=◌}
use synapse_guardian.Prelude.{
  Bool, true, false, ◌&&◌, List, [], ◌∷◌, Option, none, some, if◌then◌else◌, Text, codes, text_eq,
  after_first, map,
}
use synapse_guardian.Prelude.Result.{ok, err}
use synapse_guardian.Unicode.{Unicode}
use synapse_guardian.Value.{str, obj, Fields, end, get}
use synapse_guardian.Matrix.{Event, RoomState}
use synapse_guardian.Policy.Kinds.{Kind}
use synapse_guardian.Policy.Patterns.{validate_pattern, is_user_id}
use synapse_guardian.Policy.Rules.{RuleSet, Entry, build, evaluate}
use synapse_guardian.Policy.Payload.{from_payload}
use synapse_guardian.Store.{event_type_of}
use synapse_guardian.Bot.{
  BotEntry, state_key_for, entries_from_state, send_state_event, entry_content, keys_of,
}
use synapse_guardian.Bot.Chat.{
  Client, Message, Act, reply, raise, refused, added, no_entry, removed, not_a_user, verdict,
  listing,
}
use synapse_guardian.Bot.Links.{Runtime}
use synapse_guardian.Bot.Listing.{published_payload, list_lines}

abbrev pub rule_entry : BotEntry → Entry
rule_entry entry = (entry.kind, entry.entity)

module _ ⦃u : Unicode⦄ where
  -- the rules that `check` evaluates, and whether they are those the module published
  unfoldable pub checked_rules : RoomState → RuleSet × Bool
  checked_rules state = elim (published_payload state) [
    | some payload ↦ (from_payload (get (codes "effective") payload), true)
    | none ↦ ((build (map rule_entry (entries_from_state state))).0, false)
  ]

  unfoldable pub check_state : Text → RoomState → Act (Unit {0})
  check_state mxid state =
      let (rules, is_published) = checked_rules state in
      reply (verdict mxid (evaluate rules mxid) is_published)

unfoldable pub list_state : Runtime → RoomState → Act (Unit {0})
list_state d state = elim (list_lines d.date_of state) [
  | some lines ↦ reply (listing lines)
  | none ↦ raise (codes "list")
]

module _ ⦃u : Unicode⦄ (client : Client) where
  -- self.client.get_state
  unfoldable pub get_state : Act RoomState
  get_state c = elim (client.read_error c.state) [
    | none ↦ (ok c.state, c)
    | some why ↦ (err why, c)
  ]

  -- self.client.send_state_event
  unfoldable pub send_event : Event → Act (Unit {0})
  send_event e c = elim (client.send_error e c.state) [
    | none ↦ (ok tt, record c { state = send_state_event e c.state })
    | some why ↦ (err why, c)
  ]

  abbrev pub rule_event : Kind → Text → Fields → Event
  rule_event kind state_key content = record {
    type = event_type_of kind;
    state_key = state_key;
    sender = str client.mxid;
    content = obj content;
  }

  -- `clear_entry`, and the loop of `remove`
  unfoldable pub clear_entry : Kind → Text → Act (Unit {0})
  clear_entry kind state_key = send_event (rule_event kind state_key end)

  unfoldable pub clear_entries : Kind → List Text → Act (Unit {0})
  clear_entries kind [] c = (ok tt, c)
  clear_entries kind (key ∷ keys) c =
      continue (clear_entry kind key c) (λ _. clear_entries kind keys)

  unfoldable pub remove_keys : Kind → Text → List Text → Act (Unit {0})
  remove_keys kind entity [] = reply (no_entry kind entity)
  remove_keys kind entity (key ∷ keys) =
      clear_entries kind (key ∷ keys) >>= λ _. reply (removed kind entity)

  -- `remove`, after `may_mutate`
  unfoldable pub remove_read : Kind → Text → Act (Unit {0})
  remove_read kind entity =
      get_state >>= λ state. remove_keys kind entity (keys_of kind entity state)

  -- `server_name`; the plugin's user ID has one
  abbrev pub server_name : Text
  server_name = after_first b':' client.mxid

  abbrev pub is_local : Text → Bool
  is_local mxid = is_user_id mxid && text_eq (after_first b':' mxid) server_name

  unfoldable pub check_user : Text → Act (Unit {0})
  check_user mxid =
      if is_user_id mxid then get_state >>= check_state mxid else reply (not_a_user mxid)

  module _ (evt : Message) where
    -- `write_entry`
    unfoldable pub write_entry : Kind → Text → Option Text → Act (Unit {0})
    write_entry kind entity reason =
        send_event
          (rule_event kind (state_key_for entity) (entry_content entity evt.sender evt.now reason))

    unfoldable pub add_checked : Kind → Text → Option Text → Act (Unit {0})
    add_checked kind entity reason = elim (validate_pattern kind entity) [
      | err why ↦ reply (refused entity why)
      | ok checked ↦ write_entry kind entity reason >>= λ _. reply (added kind entity)
    ]
