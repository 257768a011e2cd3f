-- ===== src/Bot/Listing/Sorted.antt =====
-- The rows of a kind, in order.
use synapse_guardian.Prelude.{
  some-injective, ◌≡◌, refl, subst, inl, inr, List, [], ◌∷◌, some, text_eq, text_eq_refl, keep,
  Some, Bool-cases,
}
use synapse_guardian.TextSet.{text_ltb}
use synapse_guardian.Policy.Kinds.{kind_name}
use synapse_guardian.Bot.{BotEntry}
use synapse_guardian.Bot.Listing.{
  Row, row_of, rows_of, any_clash, insert_row, sort_rows, sorted_rows,
}

abbrev pub InRows : Row → List Row → Type 0
InRows x = Some (λ r. r ≡ x)

pub rows_lem :
    (entry : BotEntry) (entries : List BotEntry)
    → Some (λ e. e ≡ entry) entries
    → InRows (row_of entry) (rows_of entry.kind entries)
unfolding rows_of keep
rows_lem entry [] h = absurd h
rows_lem entry (x ∷ entries) (inl same) = rw (same, text_eq_refl (kind_name entry.kind)) (inl refl)
rows_lem entry (x ∷ entries) (inr later) =
    let ih = rows_lem entry entries later in
    elim (Bool-cases (text_eq (kind_name x.kind) (kind_name entry.kind))) [
      | inl kept ↦ rw kept (inr ih)
      | inr dropped ↦ rw dropped ih
    ]

insert_lem :
    (x : Row) (new : Row) (rows : List Row) → InRows x (new ∷ rows) → InRows x (insert_row new rows)
unfolding insert_row
insert_lem x new [] h = h
insert_lem x new (first ∷ rows) h = elim (Bool-cases (text_ltb first.0 new.0)) [
  | inr before ↦ rw before h
  | inl after ↦ rw after (elim h [
    | inl is_new ↦ inr (insert_lem x new rows (inl is_new))
    | inr old ↦ elim old [
      | inl is_first ↦ inl is_first
      | inr later ↦ inr (insert_lem x new rows (inr later))
    ]
  ])
]

sort_lem : (x : Row) (rows : List Row) → InRows x rows → InRows x (sort_rows rows)
unfolding sort_rows
sort_lem x [] h = absurd h
sort_lem x (first ∷ rows) (inl is_first) = insert_lem x first (sort_rows rows) (inl is_first)
sort_lem x (first ∷ rows) (inr later) =
    insert_lem x first (sort_rows rows) (inr (sort_lem x rows later))

pub sorted_lem :
    (x : Row) (rows sorted : List Row)
    → sorted_rows rows ≡ some sorted
    → InRows x rows
    → InRows x sorted
unfolding sorted_rows
sorted_lem x rows sorted h there = elim (Bool-cases (any_clash rows)) [
  | inl clashing ↦ absurd (cc (rw clashing at h))
  | inr fine ↦ subst (InRows x) (some-injective (rw fine at h)) (sort_lem x rows there)
]
