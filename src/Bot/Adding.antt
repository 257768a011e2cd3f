-- ===== src/Bot/Adding.antt =====
-- What `add` adds.
use synapse_guardian.Prelude.{
  ◌≡◌, refl, inl, inr, [], ◌∷◌, ◌++◌, Option, some, Text, text_eq, Some, Option-cases,
}
use synapse_guardian.Unicode.{Unicode}
use synapse_guardian.Value.Int.{ℤ}
use synapse_guardian.Value.{str, obj, get_or, as_text, lookup}
use synapse_guardian.Matrix.{Event, RoomState}
use synapse_guardian.Policy.Kinds.{Kind}
use synapse_guardian.Store.{event_type_of, find_kind}
use synapse_guardian.Bot.{
  BotEntry, bot_kinds, content_dict, named_entry, bot_entry_of, entries_from_state,
  send_state_event, entry_content, state_key_for,
}
use synapse_guardian.Prelude.Result.{ok}
use synapse_guardian.Policy.Patterns.{validate_pattern}
use synapse_guardian.Bot.Chat.{Client, Settings, Message, Chat, said, added}
use synapse_guardian.Bot.Requests.{rule_event, write_entry, add_checked}
use synapse_guardian.Bot.Commands.{add}
use synapse_guardian.Bot.Commands.Steps.{IsAllowed, IsFine, send_fine, mutate_fine}

-- the entry names the entity under the kind
pub IsEntry : Kind → Text → BotEntry → Type 0
IsEntry kind entity entry = (entry.kind ≡ kind) × (entry.entity ≡ entity)

module _ (kind : Kind) (entity : Text) where
  last_read :
      (e : Event) (state : RoomState) (entry : BotEntry)
      → bot_entry_of e ≡ some entry
      → IsEntry kind entity entry
      → Some (IsEntry kind entity) (entries_from_state (state ++ e ∷ []))
  unfolding entries_from_state
  last_read e [] entry there is = rw there (inl is)
  last_read e (x ∷ state) entry there is =
      let later = last_read e state entry there is in
      elim (Option-cases (bot_entry_of x)) [
        | inl nothing ↦ rw nothing later
        | inr (first, found) ↦ rw found (inr later)
      ]

module _ ⦃u : Unicode⦄ where
  new-IsEntry :
      (bot : Text) (sender : Text) (ts : ℤ) (kind : Kind) (entity : Text) (reason : Option Text)
      → find_kind (event_type_of kind) bot_kinds ≡ some kind
      → (entry : BotEntry) × (bot_entry_of (record {
        type = event_type_of kind;
        state_key = state_key_for entity;
        sender = str bot;
        content = obj (entry_content entity sender ts reason);
      })
          ≡ some entry)
        × IsEntry kind entity entry
  unfolding bot_entry_of named_entry content_dict entry_content IsEntry get_or lookup as_text
      text_eq
  new-IsEntry bot sender ts kind entity reason known =
      let entry : BotEntry = record {
        kind = kind;
        entity = entity;
        state_key = state_key_for entity;
        content = entry_content entity sender ts reason;
      } in
      (entry, rw (known, bot_entry_of) refl, (refl, refl))

module _ ⦃u : Unicode⦄ (client : Client) (fine : IsFine client) where
  checked_lem :
      (evt : Message) (kind : Kind) (entity : Text) (reason : Option Text) (c : Chat)
      → validate_pattern kind entity ≡ ok tt
      → let event =
          rule_event client kind
            (state_key_for entity)
            (entry_content entity evt.sender evt.now reason) in
        add_checked client evt kind entity reason c
        ≡ (ok tt, said (added kind entity) (record c { state = send_state_event event c.state }))
  unfolding add_checked write_entry
  checked_lem evt kind entity reason c valid =
      let event =
        rule_event client kind (state_key_for entity)
          (entry_content entity evt.sender evt.now reason) in
      rw (valid, add_checked, send_fine client fine event c) refl

  -- An `add` of a valid entry by a sender who may give it, on a client that raises nothing, returns, and
  -- then the entry is an active one of the room, if the kind is one of KINDS.
  pub added_is_read :
      (settings : Settings) (evt : Message) (kind : Kind) (entity : Text) (reason : Option Text)
      (c : Chat)
      → find_kind (event_type_of kind) bot_kinds ≡ some kind
      → IsAllowed client settings evt kind c.state
      → validate_pattern kind entity ≡ ok tt
      → let r = add client settings evt kind entity reason c in
        (r.0 ≡ ok tt) × Some (IsEntry kind entity) (entries_from_state r.1.state)
  unfolding add send_state_event
  added_is_read settings evt kind entity reason c known allowed valid =
      let (entry, there, is) =
        new-IsEntry client.mxid evt.sender evt.now kind entity reason known in
      rw
        (
          mutate_fine client fine settings evt kind c allowed,
          checked_lem evt kind entity reason c valid,
        )
        (refl, last_read kind entity _ _ entry there is)
