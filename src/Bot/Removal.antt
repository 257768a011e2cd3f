-- ===== src/Bot/Removal.antt =====
-- What `remove` removes.
use synapse_guardian.Prelude.{
  ◌≡◌, refl, subst, inl, inr, true, List, [], ◌∷◌, Text, text_eq_refl, keep, map, All, Bool-cases,
}
use synapse_guardian.Unicode.{Unicode}
use synapse_guardian.Value.{end}
use synapse_guardian.Policy.Kinds.{Kind, kind_name}
use synapse_guardian.Bot.{BotEntry, entries_from_state, is_named, keys_of}
use synapse_guardian.Prelude.Result.{ok}
use synapse_guardian.Bot.Chat.{Client, Settings, Message, Chat}
use synapse_guardian.Bot.Requests.{clear_entry, clear_entries, rule_event, remove_keys, remove_read}
use synapse_guardian.Bot.Commands.{remove}
use synapse_guardian.Bot.Commands.Steps.{IsAllowed, IsFine, send_fine, read_fine, mutate_fine}
use synapse_guardian.Bot.Keys.{clear_state, clear_states, cleared_none}

module _ ⦃u : Unicode⦄ (kind : Kind) (entity : Text) where
  -- an entry of the kind for the entity, in whatever case either is written
  abbrev Names : BotEntry → Type 0
  Names entry = (entry.kind ≡ kind) × (u.lower entry.entity ≡ u.lower entity)

  named_lem : (entry : BotEntry) → Names entry → is_named kind entity entry ≡ true
  unfolding is_named
  named_lem entry (same, name) =
      rw (same, name) (rw (text_eq_refl (kind_name kind), text_eq_refl (u.lower entity)) refl)

  unnamed_lem :
      (entries : List BotEntry)
      → map (λ (entry : BotEntry). entry.state_key) (keep (is_named kind entity) entries) ≡ []
      → All (λ entry. ¬ Names entry) entries
  unfolding keep
  unnamed_lem [] h = tt
  unnamed_lem (entry ∷ entries) h = elim (Bool-cases (is_named kind entity entry)) [
    | inl named ↦ absurd (cc (rw named at h))
    | inr other ↦
        (λ names. absurd (cc (named_lem entry names)), unnamed_lem entries (rw other at h))
  ]

module _ ⦃u : Unicode⦄ (client : Client) (fine : IsFine client) where
  clear_entries_lem :
      (kind : Kind) (keys : List Text) (c : Chat)
      → clear_entries client kind keys c
        ≡ (ok tt, record c { state = clear_states client.mxid kind keys c.state })
  unfolding clear_entries clear_entry clear_states clear_state
  clear_entries_lem kind [] c = refl
  clear_entries_lem kind (key ∷ keys) c =
      rw (send_fine client fine (rule_event client kind key end) c) (
        clear_entries_lem kind keys (record c { state = clear_state client.mxid kind c.state key }))

  removed_none :
      (kind : Kind) (entity : Text) (c : Chat) (keys : List Text)
      → keys_of kind entity c.state ≡ keys
      → let r = remove_keys client kind entity keys c in
        (r.0 ≡ ok tt) × (keys_of kind entity r.1.state ≡ [])
  unfolding remove_keys
  removed_none kind entity c [] there = (refl, there)
  removed_none kind entity c (key ∷ keys) there = rw (clear_entries_lem kind (key ∷ keys) c) (
    refl,
    subst (λ ks. keys_of kind entity (clear_states client.mxid kind ks c.state) ≡ []) there
        (cleared_none kind entity client.mxid c.state),
  )

  -- A `remove` by a sender who may give it, on a client that raises nothing, returns, and then no active
  -- entry of the kind has an entity that is equal to the given one in lower case, under whatever state key
  -- it stood.
  pub remove_leaves_none :
      (settings : Settings) (evt : Message) (kind : Kind) (entity : Text) (c : Chat)
      → IsAllowed client settings evt kind c.state
      → let r = remove client settings evt kind entity c in
        (r.0 ≡ ok tt)
        × All
            (λ entry. ¬ ((entry.kind ≡ kind) × (u.lower entry.entity ≡ u.lower entity)))
            (entries_from_state r.1.state)
  unfolding remove remove_read keys_of
  remove_leaves_none settings evt kind entity c allowed =
      rw (mutate_fine client fine settings evt kind c allowed, read_fine client fine c)
        (let (done, none_left) = removed_none kind entity c (keys_of kind entity c.state) refl in
          (done, unnamed_lem kind entity (entries_from_state _) none_left))
