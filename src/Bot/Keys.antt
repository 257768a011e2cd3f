-- ===== src/Bot/Keys.antt =====
-- The state keys under which an entity has entries, when some of them are cleared.
mod Places
mod Drops
use synapse_guardian.Prelude.{
  some-injective, ◌≡◌, refl, sym, ap, subst, ◌∙◌, inl, inr, true, false, not, List, [], ◌∷◌, ◌++◌,
  map, none, some, arith, Text, codes, text_eq, text_eq_iff, text_eq_refl, keep, any, All,
  Option-cases, Bool-cases,
}
use synapse_guardian.Unicode.{Unicode}
use synapse_guardian.Value.{str, obj, Fields, end, field, get_or, as_text}
use synapse_guardian.Matrix.{Event, RoomState}
use synapse_guardian.Policy.Kinds.{Kind, kind_name}
use synapse_guardian.Store.{event_type_of, find_kind}
use synapse_guardian.Bot.{
  BotEntry, bot_kinds, content_dict, named_entry, bot_entry_of, push_entry, entries_from_state,
  is_at, send_state_event, is_named, keys_of,
}
use synapse_guardian.Bot.Keys.Places.{entry_place}
use synapse_guardian.Bot.Keys.Drops.{drop_each, drop_each_nil, all_in}

-- the state after a rule is cleared, and after several are
unfoldable pub clear_state : Text → Kind → RoomState → Text → RoomState
clear_state bot kind state key =
    send_state_event
      (record { type = event_type_of kind; state_key = key; sender = str bot; content = obj end })
      state

unfoldable pub clear_states : Text → Kind → List Text → RoomState → RoomState
clear_states bot kind [] state = state
clear_states bot kind (key ∷ keys) state =
    clear_states bot kind keys (clear_state bot kind state key)

same_name : (a b : Kind) → kind_name a ≡ kind_name b → event_type_of a ≡ event_type_of b
unfolding event_type_of
same_name a b h = ap (λ name. codes "guardian." ++ name) h

-- an event that clears an entry is no entry
cleared :
    (bot type key : Text)
    → bot_entry_of (record { type = type; state_key = key; sender = str bot; content = obj end })
      ≡ none
unfolding bot_entry_of named_entry content_dict
cleared bot type key = elim (Option-cases (find_kind type bot_kinds)) [
  | inl absent ↦ rw (absent, bot_entry_of) refl
  | inr (kind, there) ↦ rw (there, bot_entry_of) refl
]

unsent :
    (bot type key : Text) (state : RoomState)
    → entries_from_state
        (state ++ record { type = type; state_key = key; sender = str bot; content = obj end } ∷ [])
      ≡ entries_from_state state
unfolding entries_from_state
unsent bot type key [] = rw (cleared bot type key) refl
unsent bot type key (e ∷ state) = ap (push_entry (bot_entry_of e)) (unsent bot type key state)

module _ ⦃u : Unicode⦄ (kind : Kind) (entity : Text) where
  -- the keys of the named entries among some
  named_keys : List BotEntry → List Text
  named_keys entries =
      map (λ (entry : BotEntry). entry.state_key) (keep (is_named kind entity) entries)

  at_lem :
      (key : Text) (e : Event) (entry : BotEntry)
      → bot_entry_of e ≡ some entry
      → is_named kind entity entry ≡ true
      → is_at (event_type_of kind) key e ≡ text_eq entry.state_key key
  unfolding is_at is_named
  at_lem key e entry there named =
      let (typed, keyed) = entry_place e entry there in
      let name = (text_eq_iff (kind_name entry.kind) (kind_name kind)).0 (ground arith) in
      let right = subst (λ t. text_eq e.type t ≡ true) (same_name entry.kind kind name) typed in
      rw (right, keyed) refl

  named_first :
      (entry : BotEntry) (entries : List BotEntry)
      → is_named kind entity entry ≡ true
      → named_keys (entry ∷ entries) ≡ entry.state_key ∷ named_keys entries
  unfolding named_keys keep
  named_first entry entries h = rw h refl

  unnamed_first :
      (entry : BotEntry) (entries : List BotEntry)
      → is_named kind entity entry ≡ false
      → named_keys (entry ∷ entries) ≡ named_keys entries
  unfolding named_keys keep
  unnamed_first entry entries h = rw h refl

  -- An event at another place keeps its entry, and one at the place had no other key.
  keeps_others :
      (key : Text) (state : RoomState)
      → named_keys (entries_from_state (keep (λ e. not (is_at (event_type_of kind) key e)) state))
        ≡ keep (λ k. not (text_eq k key)) (named_keys (entries_from_state state))
  unfolding entries_from_state keep
  keeps_others key [] = unfold named_keys in refl
  keeps_others key (e ∷ state) =
      let ih = keeps_others key state in
      let kept = entries_from_state (keep (λ e. not (is_at (event_type_of kind) key e)) state) in
      elim (Option-cases (bot_entry_of e)) [
        | inl nothing ↦ elim (Bool-cases (is_at (event_type_of kind) key e)) [
          | inl gone ↦ rw (gone, nothing) ih
          | inr stays ↦ rw (stays, nothing) ih
        ]
        | inr (entry, there) ↦ elim (Bool-cases (is_named kind entity entry)) [
          | inl named ↦ elim (Bool-cases (text_eq entry.state_key key)) [
            | inl same ↦
                rw
                  (
                    at_lem key e entry there named,
                    same,
                    there,
                    named_first entry (entries_from_state state) named,
                    same,
                  )
                  ih
            | inr apart ↦
                rw
                  (
                    at_lem key e entry there named,
                    apart,
                    there,
                    named_first entry kept named,
                    named_first entry (entries_from_state state) named,
                    apart,
                  )
                  (ap (λ ks. entry.state_key ∷ ks) ih)
          ]
          | inr unnamed ↦ elim (Bool-cases (is_at (event_type_of kind) key e)) [
            | inl gone ↦ rw (gone, there, unnamed_first entry (entries_from_state state) unnamed) ih
            | inr stays ↦
                rw
                  (
                    stays,
                    there,
                    unnamed_first entry kept unnamed,
                    unnamed_first entry (entries_from_state state) unnamed,
                  )
                  ih
          ]
        ]
      ]

  clear_lem :
      (bot key : Text) (state : RoomState)
      → keys_of kind entity (clear_state bot kind state key)
        ≡ keep (λ k. not (text_eq k key)) (keys_of kind entity state)
  unfolding keys_of named_keys clear_state send_state_event
  clear_lem bot key state =
      ap named_keys (
        unsent bot (event_type_of kind) key
          (keep (λ e. not (is_at (event_type_of kind) key e)) state))
      ∙ keeps_others key state

  clear_states_lem :
      (bot : Text) (keys : List Text) (state : RoomState)
      → keys_of kind entity (clear_states bot kind keys state)
        ≡ drop_each keys (keys_of kind entity state)
  unfolding clear_states drop_each
  clear_states_lem bot [] state = refl
  clear_states_lem bot (key ∷ keys) state =
      clear_states_lem bot keys (clear_state bot kind state key)
      ∙ ap (drop_each keys) (clear_lem bot key state)

  pub cleared_none :
      (bot : Text) (state : RoomState)
      → keys_of kind entity (clear_states bot kind (keys_of kind entity state) state) ≡ []
  cleared_none bot state =
      let keys = keys_of kind entity state in
      clear_states_lem bot keys state ∙ drop_each_nil keys keys (all_in keys)
