-- ===== src/Bot/Agreement.antt =====
-- The plugin and the module read the same rules from a room whose senders the module trusts.
use synapse_guardian.Prelude.{
  ◌≡◌, refl, sym, ap₂, subst, ◌∙◌, inl, inr, true, List, [], ◌∷◌, Option, none, some, Text, codes,
  text_eq, text_eq_iff, map, All, Option-cases, Bool-cases,
}
use synapse_guardian.Unicode.{Unicode}
use synapse_guardian.Value.{Value, str, obj, end, field, get_or, as_text}
use synapse_guardian.Matrix.{Event, RoomState, Api}
use synapse_guardian.Policy.Kinds.{
  Kind, all_kinds, protected_user, allowed_server, allowed_user, blocked_user, blocked_server,
}
use synapse_guardian.Policy.Rules.{Entry}
use synapse_guardian.Store.{
  Authority, Refusal, find_kind, kind_of_type, event_type_of, refuse, sender_power, active_content,
  entity_of, entry_of, entries_from, prepend,
}
use synapse_guardian.Bot.{
  BotEntry, bot_kinds, content_dict, named_entry, bot_entry_of, push_entry, entries_from_state,
}

abbrev pub entry_pair : BotEntry → Entry
entry_pair entry = (entry.kind, entry.entity)

abbrev pair_of : Option BotEntry → Option Entry
pair_of none = none
pair_of (some entry) = some (entry_pair entry)

-- at the type of a kind both orders find the kind
at_kind :
    (type known : Text)
    → text_eq type known ≡ true
    → find_kind known bot_kinds ≡ kind_of_type known
    → find_kind type bot_kinds ≡ kind_of_type type
at_kind type known e there =
    subst (λ t. find_kind t bot_kinds ≡ kind_of_type t) (sym ((text_eq_iff type known).0 e)) there

same_kind : (type : Text) → find_kind type bot_kinds ≡ kind_of_type type
unfolding find_kind bot_kinds kind_of_type all_kinds text_eq
same_kind type = elim (Bool-cases (text_eq type (event_type_of protected_user))) [
  | inl e ↦ at_kind type (event_type_of protected_user) e refl
  | inr a ↦ elim (Bool-cases (text_eq type (event_type_of allowed_server))) [
    | inl e ↦ at_kind type (event_type_of allowed_server) e refl
    | inr b ↦ elim (Bool-cases (text_eq type (event_type_of allowed_user))) [
      | inl e ↦ at_kind type (event_type_of allowed_user) e refl
      | inr c ↦ elim (Bool-cases (text_eq type (event_type_of blocked_user))) [
        | inl e ↦ at_kind type (event_type_of blocked_user) e refl
        | inr d ↦ elim (Bool-cases (text_eq type (event_type_of blocked_server))) [
          | inl e ↦ at_kind type (event_type_of blocked_server) e refl
          | inr f ↦ rw (a, b, c, d, f) refl
        ]
      ]
    ]
  ]
]

pushed :
    (entry : Option BotEntry) (out : List BotEntry)
    → map entry_pair (push_entry entry out) ≡ prepend (pair_of entry) (map entry_pair out)
pushed none out = refl
pushed (some entry) out = refl

module _ ⦃u : Unicode⦄ (api : Api) (a : Authority) where
  named_lem :
      (kind : Kind) (e : Event) (v : Value) (refused : Option Refusal)
      → refused ≡ none
      → pair_of (named_entry kind e (content_dict v))
        ≡ (elim (active_content v) as (λ x. Option Entry) [
          | none ↦ none
          | some content ↦ elim refused as (λ x. Option Entry) [
            | some why ↦ none
            | none ↦ elim (entity_of e content) as (λ x. Option Entry) [
              | none ↦ none
              | some entity ↦ some (kind, entity)
            ]
          ]
        ])
  unfolding named_entry content_dict active_content entity_of
  named_lem kind e (obj end) refused trusted = refl
  named_lem kind e (obj (field k v rest)) none trusted =
      elim (Option-cases (as_text (get_or (codes "entity") (str e.state_key) (field k v rest)))) [
        | inl absent ↦ rw (absent, named_entry) refl
        | inr (entity, there) ↦ rw (there, named_entry) refl
      ]
  named_lem kind e (obj (field k v rest)) (some why) trusted = cc
  named_lem kind e _ refused trusted = refl

  entry_lem :
      (e : Event)
      → refuse (sender_power api a e.sender) e.type a ≡ none
      → pair_of (bot_entry_of e) ≡ entry_of api a e
  unfolding bot_entry_of entry_of
  entry_lem e trusted = elim (Option-cases (kind_of_type e.type)) [
    | inl absent ↦ rw (same_kind e.type ∙ absent, bot_entry_of, absent, entry_of) refl
    | inr (kind, there) ↦
        rw (same_kind e.type ∙ there, bot_entry_of, there, entry_of)
          (named_lem kind e e.content _ trusted)
  ]

  -- From a room in which the module trusts the sender of every event for its type, the plugin reads
  -- the same entries as the module, in the same order.
  pub plugin_reads_the_same :
      (state : RoomState)
      → All (λ e. refuse (sender_power api a e.sender) e.type a ≡ none) state
      → map entry_pair (entries_from_state state) ≡ entries_from api a state
  unfolding entries_from_state entries_from
  plugin_reads_the_same [] trusted = refl
  plugin_reads_the_same (e ∷ state) (sender, rest) =
      pushed (bot_entry_of e) (entries_from_state state)
      ∙ ap₂ prepend (entry_lem e sender) (plugin_reads_the_same state rest)
