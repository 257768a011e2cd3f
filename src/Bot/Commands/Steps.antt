-- ===== src/Bot/Commands/Steps.antt =====
-- What the parts of a command do to the control room.
use synapse_guardian.Prelude.Steps.{continue}
use synapse_guardian.Prelude.{
  ◌≡◌, refl, inl, inr, ◌⊎◌, true, false, List, [], ◌∷◌, Option, none, Text, Option-cases,
  Bool-cases, if◌then◌else◌,
}
use synapse_guardian.Prelude.Result.{Result, ok, err, Result-cases}
use synapse_guardian.Unicode.{Unicode}
use synapse_guardian.Value.Int.{leb_ℤ}
use synapse_guardian.Value.{Fields, end}
use synapse_guardian.Matrix.{Event, RoomState}
use synapse_guardian.Policy.Kinds.{Kind}
use synapse_guardian.Policy.Patterns.{validate_pattern}
use synapse_guardian.Bot.{
  send_state_event, bot_power_of, bot_needed_for, keys_of, entry_content, state_key_for,
}
use synapse_guardian.Bot.Chat.{
  Client, Settings, Message, Reply, Chat, reply, said, not_admin, unreadable, lacks_power, Act,
  done,
}
use synapse_guardian.Bot.Requests.{
  send_event, rule_event, clear_entry, clear_entries, write_entry, add_checked, remove_keys,
  remove_read, get_state,
}
use synapse_guardian.Bot.Commands.{may_command, may_send, may_mutate, add, remove}

module _ ⦃u : Unicode⦄ (client : Client) where
  -- One state is reached from another by events of the kind that the plugin sends.
  pub data Sends (kind : Kind) : RoomState → RoomState → Type 0 where
    nothing : (state : RoomState) → Sends kind state state
    sends :
        (key : Text) (content : Fields) (state state' : RoomState)
        → Sends kind (send_state_event (rule_event client kind key content) state) state'
        → Sends kind state state'

  send_lem :
      (kind : Kind) (key : Text) (content : Fields) (c : Chat)
      → Sends kind c.state (send_event client (rule_event client kind key content) c).1.state
  unfolding send_event
  send_lem kind key content c =
      elim (Option-cases (client.send_error (rule_event client kind key content) c.state)) [
        | inl fine ↦ rw (fine, send_event) (sends key content c.state _ (nothing _))
        | inr (why, failed) ↦ rw (failed, send_event) (nothing c.state)
      ]

  Sends-trans :
      (kind : Kind) (first second third : RoomState)
      → Sends kind first second
      → Sends kind second third
      → Sends kind first third
  Sends-trans kind first second third (nothing same) later = later
  Sends-trans kind first second third (sends key content from to rest) later =
      sends key content first third (Sends-trans kind _ second third rest later)

  -- A computation sends events of the kind if its first part does, and its second from any room.
  Sends-continue :
      {A : Type 0} (kind : Kind) (state : RoomState) (r : Result Text A × Chat)
      (next : A → Act (Unit {0}))
      → Sends kind state r.1.state
      → ((a : A) (c : Chat) → Sends kind c.state (next a c).1.state)
      → Sends kind state (continue r next).1.state
  Sends-continue kind state (ok a, c) next first second =
      Sends-trans kind state c.state _ first (second a c)
  Sends-continue kind state (err why, c) next first second = first

  says_lem :
      (kind : Kind) (answer : Reply) (a : Unit {0}) (c : Chat)
      → Sends kind c.state (reply answer c).1.state
  says_lem kind answer a c = nothing c.state

  pub clear_entries_lem :
      (kind : Kind) (keys : List Text) (c : Chat)
      → Sends kind c.state (clear_entries client kind keys c).1.state
  unfolding clear_entries clear_entry
  clear_entries_lem kind [] c = nothing c.state
  clear_entries_lem kind (key ∷ keys) c =
      Sends-continue kind c.state (clear_entry client kind key c)
        (λ a. clear_entries client kind keys) (send_lem kind key end c)
        (λ a c'. clear_entries_lem kind keys c')

  get_state_lem : (kind : Kind) (c : Chat) → Sends kind c.state (get_state client c).1.state
  unfolding get_state
  get_state_lem kind c = elim (Option-cases (client.read_error c.state)) [
    | inl fine ↦ rw (fine, get_state) (nothing c.state)
    | inr (why, failed) ↦ rw (failed, get_state) (nothing c.state)
  ]

module _ ⦃u : Unicode⦄ (client : Client) (settings : Settings) (evt : Message) where
  -- the sender may give such commands, and could send the events of the kind as well
  unfoldable pub IsAllowed : Kind → RoomState → Type 0
  IsAllowed kind state =
      (may_command client settings evt ≡ true)
      × (leb_ℤ (bot_needed_for state kind) (bot_power_of state evt.sender) ≡ true)

  pub may_mutate_lem :
      (kind : Kind) (c : Chat)
      → ((may_mutate client settings evt kind c ≡ (ok true, c)) × IsAllowed kind c.state)
        ⊎ ((answer : Reply) × (may_mutate client settings evt kind c ≡ (ok false, said answer c)))
  unfolding may_mutate may_send IsAllowed
  may_mutate_lem kind c = elim (Bool-cases (may_command client settings evt)) [
    | inr stranger ↦ inr (not_admin, rw (stranger, may_mutate) refl)
    | inl admin ↦ elim (Option-cases (client.read_error c.state)) [
      | inr (why, failed) ↦ inr (unreadable why, rw (admin, failed, may_mutate) refl)
      | inl read ↦
          let needed = bot_needed_for c.state kind in
          let have = bot_power_of c.state evt.sender in
          elim (Bool-cases (leb_ℤ needed have)) [
            | inl enough ↦ inl (rw (admin, read, enough, may_mutate) refl, (admin, enough))
            | inr weak ↦ inr (lacks_power needed have, rw (admin, read, weak, may_mutate) refl)
          ]
    ]
  ]

  -- the state is as it was, or the sender was allowed to change it and events of the kind were sent
  unfoldable pub IsRightful : Kind → Chat → RoomState → Type 0
  IsRightful kind c state' =
      (state' ≡ c.state) ⊎ (IsAllowed kind c.state × Sends client kind c.state state')

  add_checked_lem :
      (kind : Kind) (entity : Text) (reason : Option Text) (c : Chat)
      → Sends client kind c.state (add_checked client evt kind entity reason c).1.state
  unfolding add_checked write_entry
  add_checked_lem kind entity reason c = elim (Result-cases (validate_pattern kind entity)) [
    | inr (why, invalid) ↦ rw (invalid, add_checked) (nothing c.state)
    | inl (checked, valid) ↦
        let content = entry_content entity evt.sender evt.now reason in
        rw (valid, add_checked)
          (Sends-continue client kind c.state (write_entry client evt kind entity reason c)
            (λ done. reply (Reply.added kind entity))
            (send_lem client kind (state_key_for entity) content c)
            (says_lem client kind (Reply.added kind entity)))
  ]

  remove_keys_lem :
      (kind : Kind) (entity : Text) (keys : List Text) (c : Chat)
      → Sends client kind c.state (remove_keys client kind entity keys c).1.state
  unfolding remove_keys
  remove_keys_lem kind entity [] c = nothing c.state
  remove_keys_lem kind entity (key ∷ keys) c =
      Sends-continue client kind c.state (clear_entries client kind (key ∷ keys) c)
        (λ done. reply (Reply.removed kind entity)) (clear_entries_lem client kind (key ∷ keys) c)
        (says_lem client kind (Reply.removed kind entity))

  remove_read_lem :
      (kind : Kind) (entity : Text) (c : Chat)
      → Sends client kind c.state (remove_read client kind entity c).1.state
  unfolding remove_read
  remove_read_lem kind entity c =
      Sends-continue client kind c.state (get_state client c)
        (λ state. remove_keys client kind entity (keys_of kind entity state))
        (get_state_lem client kind c)
        (λ state c'. remove_keys_lem kind entity (keys_of kind entity state) c')

  -- what may be done after `may_mutate` is rightful if it only sends events of the kind
  mutation_lem :
      (kind : Kind) (act : Act (Unit {0})) (c : Chat)
      → Sends client kind c.state (act c).1.state
      → let r = continue (may_mutate client settings evt kind c) (λ ok. if ok then act else done) in
        IsRightful kind c r.1.state
  unfolding IsRightful
  mutation_lem kind act c sent = elim (may_mutate_lem kind c) [
    | inr (answer, denied) ↦ inl (rw denied refl)
    | inl (granted, allowed) ↦ inr (allowed, rw granted sent)
  ]

  pub add-IsRightful :
      (kind : Kind) (entity : Text) (reason : Option Text) (c : Chat)
      → IsRightful kind c (add client settings evt kind entity reason c).1.state
  unfolding add
  add-IsRightful kind entity reason c =
      mutation_lem kind (add_checked client evt kind entity reason) c
        (add_checked_lem kind entity reason c)

  pub remove-IsRightful :
      (kind : Kind) (entity : Text) (c : Chat)
      → IsRightful kind c (remove client settings evt kind entity c).1.state
  unfolding remove
  remove-IsRightful kind entity c =
      mutation_lem kind (remove_read client kind entity) c (remove_read_lem kind entity c)

-- no call of the client raises
unfoldable pub IsFine : Client → Type 0
IsFine client =
    ((state : RoomState) → client.read_error state ≡ none)
    × ((e : Event) (state : RoomState) → client.send_error e state ≡ none)

module _ ⦃u : Unicode⦄ (client : Client) (fine : IsFine client) where
  pub send_fine :
      (e : Event) (c : Chat)
      → send_event client e c ≡ (ok tt, record c { state = send_state_event e c.state })
  unfolding IsFine send_event
  send_fine e c = rw (fine.1 e c.state, send_event) refl

  pub read_fine : (c : Chat) → get_state client c ≡ (ok c.state, c)
  unfolding IsFine get_state
  read_fine c = rw (fine.0 c.state, get_state) refl

  pub mutate_fine :
      (settings : Settings) (evt : Message) (kind : Kind) (c : Chat)
      → IsAllowed client settings evt kind c.state
      → may_mutate client settings evt kind c ≡ (ok true, c)
  unfolding IsFine IsAllowed may_send may_mutate
  mutate_fine settings evt kind c (admin, enough) =
      rw (admin, fine.0 c.state, enough, may_mutate) refl
