-- ===== src/Bot/Listing/Clashes.antt =====
-- When `!guard list` raises.
use synapse_guardian.Prelude.{
  some-injective, ◌≡◌, refl, ap, subst, ◌∙◌, inl, inr, true, false, List, [], ◌∷◌, ◌++◌, Option,
  none, some, arith, Text, codes, text_eq, text_eq_refl, keep, any, Some, All, Option-cases,
  Bool-cases,
}
use synapse_guardian.Value.Int.{ℤ}
use synapse_guardian.Value.{Fields, end, field, obj, str, get_or, as_text}
use synapse_guardian.Value.Equal.{value_eq}
use synapse_guardian.Matrix.{Event, RoomState}
use synapse_guardian.Policy.Kinds.{Kind, kind_name}
use synapse_guardian.Store.{event_type_of, find_kind}
use synapse_guardian.Bot.{
  BotEntry, bot_kinds, content_dict, named_entry, bot_entry_of, entries_from_state,
}
use synapse_guardian.Bot.Listing.{
  Row, row_of, rows_of, clash, any_clash, sorted_rows, kind_lines, room_lines, list_lines,
}

rows-append :
    (kind : Kind) (xs ys : List BotEntry)
    → rows_of kind (xs ++ ys) ≡ rows_of kind xs ++ rows_of kind ys
unfolding rows_of keep
rows-append kind [] ys = refl
rows-append kind (x ∷ xs) ys = elim (Bool-cases (text_eq (kind_name x.kind) (kind_name kind))) [
  | inl same ↦ rw same (ap (λ rows. row_of x ∷ rows) (rows-append kind xs ys))
  | inr other ↦ rw other (rows-append kind xs ys)
]

rows-here :
    (entry : BotEntry) (kind : Kind) (rest : List BotEntry)
    → entry.kind ≡ kind
    → rows_of kind (entry ∷ rest) ≡ row_of entry ∷ rows_of kind rest
unfolding rows_of keep
rows-here entry kind rest same = rw (same, text_eq_refl (kind_name kind)) refl

split_rows :
    (kind : Kind) (front middle back : List BotEntry) (first second : BotEntry)
    → first.kind ≡ kind
    → second.kind ≡ kind
    → rows_of kind (front ++ (first ∷ (middle ++ (second ∷ back))))
      ≡ rows_of kind front
        ++ (row_of first ∷ (rows_of kind middle ++ (row_of second ∷ rows_of kind back)))
split_rows kind front middle back first second one other =
    rows-append kind front _
    ∙ ap (λ rows. rows_of kind front ++ rows)
        (rows-here first kind _ one
          ∙ ap (λ rows. row_of first ∷ rows)
              (rows-append kind middle _
                ∙ ap (λ rows. rows_of kind middle ++ rows) (rows-here second kind back other)))

any-there :
    (first second : Row) (middle back : List Row)
    → clash first second ≡ true
    → any (clash first) (middle ++ (second ∷ back)) ≡ true
unfolding any
any-there first second [] back h = rw h refl
any-there first second (x ∷ middle) back h = ground (arith, any-there first second middle back h)

any_clash_lem :
    (front : List Row) (first : Row) (middle : List Row) (second : Row) (back : List Row)
    → clash first second ≡ true
    → any_clash (front ++ (first ∷ (middle ++ (second ∷ back)))) ≡ true
unfolding any_clash
any_clash_lem [] first middle second back h = rw (any-there first second middle back h) refl
any_clash_lem (x ∷ front) first middle second back h =
    ground (arith, any_clash_lem front first middle second back h)

-- a kind that is found is one of the kinds
found_among :
    (type : Text) (kinds : List Kind) (kind : Kind)
    → find_kind type kinds ≡ some kind
    → Some (λ k. k ≡ kind) kinds
unfolding find_kind
found_among type [] kind h = absurd (cc)
found_among type (k ∷ kinds) kind h = elim (Bool-cases (text_eq type (event_type_of k))) [
  | inl here ↦ inl (some-injective (rw here at h))
  | inr later ↦ inr (found_among type kinds kind (rw later at h))
]

named_kind :
    (kind : Kind) (e : Event) (content : Fields) (entry : BotEntry)
    → named_entry kind e content ≡ some entry
    → kind ≡ entry.kind
unfolding named_entry
named_kind kind e end entry h = absurd (cc)
named_kind kind e (field k v rest) entry h =
    elim (Option-cases (as_text (get_or (codes "entity") (str e.state_key) (field k v rest)))) [
      | inl absent ↦ absurd (cc (rw (absent, named_entry) at h))
      | inr (entity, there) ↦
          ap (λ (b : BotEntry). b.kind) (some-injective (rw (there, named_entry) at h))
    ]

abbrev pub IsKnown : BotEntry → Type 0
IsKnown entry = Some (λ k. k ≡ entry.kind) bot_kinds

entry-IsKnown : (e : Event) (entry : BotEntry) → bot_entry_of e ≡ some entry → IsKnown entry
unfolding bot_entry_of
entry-IsKnown e entry h = elim (Option-cases (find_kind e.type bot_kinds)) [
  | inl absent ↦ absurd (cc (rw (absent, bot_entry_of) at h))
  | inr (kind, there) ↦
      subst (λ k. Some (λ k'. k' ≡ k) bot_kinds)
        (named_kind kind e (content_dict e.content) entry (rw (there, bot_entry_of) at h))
        (found_among e.type bot_kinds kind there)
]

pub entries-IsKnown : (state : RoomState) → All IsKnown (entries_from_state state)
unfolding entries_from_state
entries-IsKnown [] = tt
entries-IsKnown (e ∷ state) = elim (Option-cases (bot_entry_of e)) [
  | inl nothing ↦ rw (nothing, All) (entries-IsKnown state)
  | inr (entry, there) ↦ rw (there, All) (entry-IsKnown e entry there, entries-IsKnown state)
]

All-at {ℓ} :
    {A : Type ℓ} (P : A → Type 0) (front : List A) (x : A) (back : List A)
    → All P (front ++ x ∷ back)
    → P x
All-at P [] x back (here, rest) = here
All-at P (y ∷ front) x back (here, rest) = All-at P front x back rest

module _ (date_of : ℤ → Option Text) where
  -- a kind whose rows cannot be sorted makes the whole listing raise
  room_raises :
      (kind : Kind) (kinds : List Kind) (entries : List BotEntry)
      → Some (λ k. k ≡ kind) kinds
      → kind_lines date_of kind entries ≡ none
      → room_lines date_of kinds entries ≡ none
  unfolding room_lines
  room_raises kind [] entries among h = absurd among
  room_raises kind (k ∷ kinds) entries (inl same) h = rw (same, h) refl
  room_raises kind (k ∷ kinds) entries (inr later) h =
      let raises = room_raises kind kinds entries later h in
      elim (Option-cases (kind_lines date_of k entries)) [
        | inl first ↦ rw first refl
        | inr (lines, first) ↦ rw (first, raises) refl
      ]

  kind_raises :
      (kind : Kind) (entries : List BotEntry)
      → any_clash (rows_of kind entries) ≡ true
      → kind_lines date_of kind entries ≡ none
  unfolding kind_lines sorted_rows
  kind_raises kind entries h = rw h refl

  -- `!guard list` raises TypeError as soon as the room holds two entries of one kind that name one entity,
  -- with contents that differ, under two state keys: it sorts pairs of an entity and a mapping.
  pub clash_breaks_the_list :
      (state : RoomState) (front middle back : List BotEntry) (first second : BotEntry)
      → entries_from_state state ≡ front ++ (first ∷ (middle ++ (second ∷ back)))
      → second.kind ≡ first.kind
      → second.entity ≡ first.entity
      → value_eq (obj first.content) (obj second.content) ≡ false
      → list_lines date_of state ≡ none
  unfolding list_lines
  clash_breaks_the_list state front middle back first second there kind entity apart =
      let k = first.kind in
      let known : IsKnown first =
        All-at IsKnown front first _ (subst (All IsKnown) there (entries-IsKnown state)) in
      let clashing : clash (row_of first) (row_of second) ≡ true =
        rw (entity, text_eq_refl first.entity, apart) refl in
      let rows = split_rows k front middle back first second refl kind in
      let raises = kind_raises k (entries_from_state state) (
        rw (there, rows)
          (any_clash_lem (rows_of k front) (row_of first) (rows_of k middle) (row_of second)
            (rows_of k back) clashing)) in
      rw (room_raises k bot_kinds (entries_from_state state) known raises, list_lines) refl
