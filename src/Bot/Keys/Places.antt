-- ===== src/Bot/Keys/Places.antt =====
-- Where in the control room the event of an entry stands.
use synapse_guardian.Prelude.{
  some-injective, ◌≡◌, sym, ap, subst, inl, inr, true, List, [], ◌∷◌, some, arith, Text, codes,
  text_eq, Option-cases, Bool-cases,
}
use synapse_guardian.Value.{str, Fields, end, field, get_or, as_text}
use synapse_guardian.Matrix.{Event}
use synapse_guardian.Policy.Kinds.{Kind}
use synapse_guardian.Store.{event_type_of, find_kind}
use synapse_guardian.Bot.{BotEntry, bot_kinds, content_dict, named_entry, bot_entry_of}

found_type :
    (type : Text) (kinds : List Kind) (kind : Kind)
    → find_kind type kinds ≡ some kind
    → text_eq type (event_type_of kind) ≡ true
unfolding find_kind
found_type type [] kind h = cc
found_type type (k ∷ kinds) kind h = elim (Bool-cases (text_eq type (event_type_of k))) [
  | inl here ↦
      subst (λ k'. text_eq type (event_type_of k') ≡ true) (some-injective (ground arith)) here
  | inr later ↦ found_type type kinds kind (ground arith)
]

named_key :
    (kind : Kind) (e : Event) (content : Fields) (entry : BotEntry)
    → named_entry kind e content ≡ some entry
    → (entry.kind ≡ kind) × (entry.state_key ≡ e.state_key)
unfolding named_entry
named_key kind e end entry h = cc
named_key kind e (field k v rest) entry h =
    elim (Option-cases (as_text (get_or (codes "entity") (str e.state_key) (field k v rest)))) [
      | inl absent ↦ absurd (cc (rw (absent, named_entry) at h))
      | inr (entity, there) ↦
          let same = some-injective (rw (there, named_entry) at h) in
          (sym (ap (λ (b : BotEntry). b.kind) same), sym (ap (λ (b : BotEntry). b.state_key) same))
    ]

pub entry_place :
    (e : Event) (entry : BotEntry)
    → bot_entry_of e ≡ some entry
    → (text_eq e.type (event_type_of entry.kind) ≡ true) × (entry.state_key ≡ e.state_key)
unfolding bot_entry_of
entry_place e entry h = elim (Option-cases (find_kind e.type bot_kinds)) [
  | inl absent ↦ absurd (cc (rw (absent, bot_entry_of) at h))
  | inr (kind, there) ↦
      let (same_kind, same_key) =
        named_key kind e (content_dict e.content) entry (rw (there, bot_entry_of) at h) in
      (
        subst (λ k. text_eq e.type (event_type_of k) ≡ true) (sym same_kind)
            (found_type e.type bot_kinds kind there),
        same_key,
      )
]
