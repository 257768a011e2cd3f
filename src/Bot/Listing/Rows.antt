-- ===== src/Bot/Listing/Rows.antt =====
-- What `!guard list` shows.
use synapse_guardian.Prelude.{
  some-injective, ◌≡◌, refl, sym, ap, ◌∙◌, ◌++◌, append_assoc, subst, inl, inr, List, [], ◌∷◌,
  Option, none, some, Text, Some, All, Option-cases,
}
use synapse_guardian.Value.Int.{ℤ}
use synapse_guardian.Matrix.{RoomState}
use synapse_guardian.Policy.Kinds.{Kind}
use synapse_guardian.Bot.{BotEntry, bot_kinds, content_dict, entries_from_state}
use synapse_guardian.Bot.Listing.{
  ◌>>=◌, Meta, Line, row, heading, Row, row_of, rows_of, sorted_rows, meta_of, row_lines, headed,
  kind_lines, room_lines, list_lines, or_no_rules, published_payload, static_extra_lines,
  static_part,
}
use synapse_guardian.Bot.Listing.Clashes.{IsKnown, entries-IsKnown}
use synapse_guardian.Bot.Listing.Described.{Describes, meta_lem}
use synapse_guardian.Bot.Listing.Sorted.{InRows, rows_lem, sorted_lem}

bind_some :
    {A : Type 0} {B : Type 0} (m : Option A) (f : A → Option B) (out : B)
    → (m >>= f) ≡ some out
    → (a : A) × (m ≡ some a) × (f a ≡ some out)
bind_some none f out h = absurd (cc)
bind_some (some a) f out h = (a, refl, h)

pub IsRow : Line → Type 0
IsRow line = (text : Text) × (meta : List Meta) × (line ≡ row text meta)

pub DescribesRow : (ℤ → Option Text) → Row → Line → Type 0
DescribesRow date_of (text, content) line =
    (meta : List Meta) × (line ≡ row text meta) × Describes date_of (content_dict content) meta

-- Under the heading of the kind, and before any other heading, a line shows the row.
pub StandsIn : (ℤ → Option Text) → Kind → Row → List Line → Type 0
StandsIn date_of kind x lines =
    (before rows after : List Line) × (lines ≡ before ++ heading kind ∷ (rows ++ after))
    × All IsRow rows
    × Some (DescribesRow date_of x) rows

or_lem :
    (before after : List Line) (line : Line)
    → or_no_rules (before ++ line ∷ after) ≡ before ++ line ∷ after
or_lem [] after line = refl
or_lem (first ∷ before) after line = refl

reply_lem :
    (before rows after extra : List Line) (line : Line)
    → or_no_rules (before ++ line ∷ (rows ++ after)) ++ extra
      ≡ before ++ line ∷ (rows ++ (after ++ extra))
reply_lem before rows after extra line =
    ap (λ b. b ++ extra) (or_lem before (rows ++ after) line)
    ∙ append_assoc before (line ∷ (rows ++ after)) extra
    ∙ ap (λ r. before ++ line ∷ r) (append_assoc rows after extra)

headed_lem :
    (kind : Kind) (x : Row) (rows : List Row) (lines : List Line)
    → InRows x rows
    → headed kind rows lines ≡ heading kind ∷ lines
headed_lem kind x [] lines there = absurd there
headed_lem kind x (first ∷ rows) lines there = refl

known_lem :
    (entries : List BotEntry) (entry : BotEntry)
    → Some (λ e. e ≡ entry) entries
    → All IsKnown entries
    → IsKnown entry
known_lem [] entry there known = absurd there
known_lem (x ∷ entries) entry (inl same) (here, rest) = subst IsKnown same here
known_lem (x ∷ entries) entry (inr later) (here, rest) = known_lem entries entry later rest

module _ (date_of : ℤ → Option Text) where
  rows_only :
      (rows : List Row) (lines : List Line) → row_lines date_of rows ≡ some lines → All IsRow lines
  unfolding row_lines IsRow
  rows_only [] lines h = subst (All IsRow) (some-injective h) tt
  rows_only ((entity, content) ∷ rows) lines h =
      let (meta, told, h2) = bind_some (meta_of date_of (content_dict content)) _ lines h in
      let (rest, listed, h3) = bind_some (row_lines date_of rows) _ lines h2 in
      subst (All IsRow) (some-injective h3) ((entity, meta, refl), rows_only rows rest listed)

  row_lines_lem :
      (x : Row) (rows : List Row) (lines : List Line)
      → row_lines date_of rows ≡ some lines
      → InRows x rows
      → Some (DescribesRow date_of x) lines
  unfolding row_lines DescribesRow
  row_lines_lem x [] lines h there = absurd there
  row_lines_lem x ((entity, content) ∷ rows) lines h there =
      let (meta, told, h2) = bind_some (meta_of date_of (content_dict content)) _ lines h in
      let (rest, listed, h3) = bind_some (row_lines date_of rows) _ lines h2 in
      subst (Some (DescribesRow date_of x)) (some-injective h3) (elim there [
        | inl same ↦ inl (
            subst (λ r. DescribesRow date_of r (row entity meta)) same
              (meta, refl, meta_lem date_of (content_dict content) meta told))
        | inr later ↦ inr (row_lines_lem x rows rest listed later)
      ])

  -- the lines of a kind with a row
  kind_lines_lem :
      (kind : Kind) (x : Row) (entries : List BotEntry) (lines : List Line)
      → kind_lines date_of kind entries ≡ some lines
      → InRows x (rows_of kind entries)
      → (rows : List Line) × (lines ≡ heading kind ∷ rows)
        × All IsRow rows
        × Some (DescribesRow date_of x) rows
  unfolding kind_lines
  kind_lines_lem kind x entries lines h there =
      let (rows, sorted, h2) = bind_some (sorted_rows (rows_of kind entries)) _ lines h in
      let (body, listed, h3) = bind_some (row_lines date_of rows) _ lines h2 in
      let in_rows = sorted_lem x (rows_of kind entries) rows sorted there in
      (
        body,
        sym (some-injective h3) ∙ headed_lem kind x rows body in_rows,
        rows_only rows body listed,
        row_lines_lem x rows body listed in_rows,
      )

  room_lines_lem :
      (kind : Kind) (kinds : List Kind) (x : Row) (entries : List BotEntry) (lines : List Line)
      → room_lines date_of kinds entries ≡ some lines
      → Some (λ k. k ≡ kind) kinds
      → InRows x (rows_of kind entries)
      → StandsIn date_of kind x lines
  unfolding room_lines StandsIn
  room_lines_lem kind [] x entries lines h among there = absurd among
  room_lines_lem kind (k ∷ kinds) x entries lines h among there =
      let (front, first, h2) = bind_some (kind_lines date_of k entries) _ lines h in
      let (back, rest, h3) = bind_some (room_lines date_of kinds entries) _ lines h2 in
      elim among [
        | inl same ↦
            let (rows, split, only, shows) =
              kind_lines_lem kind x entries front (rw (sym same) first) there in
            ([], rows, back, sym (some-injective h3) ∙ ap (λ f. f ++ back) split, only, shows)
        | inr later ↦
            let (before, rows, after, split, only, shows) =
              room_lines_lem kind kinds x entries back rest later there in
            (
              front ++ before,
              rows,
              after,
              sym (some-injective h3)
                  ∙ ap (λ b. front ++ b) split
                  ∙ sym (append_assoc front before (heading kind ∷ (rows ++ after))),
              only,
              shows,
            )
      ]

  -- Where the reply to `!guard list` is given, every active entry of the room stands in it: in the rows
  -- under the heading of its kind, as a row of its entity that tells who added the entry, on what day, and
  -- why, as far as the content of its event says so, and no more.
  pub list_shows_entries :
      (state : RoomState) (lines : List Line) (entry : BotEntry)
      → list_lines date_of state ≡ some lines
      → Some (λ e. e ≡ entry) (entries_from_state state)
      → StandsIn date_of entry.kind (row_of entry) lines
  unfolding list_lines StandsIn
  list_shows_entries state lines entry h there =
      let entries = entries_from_state state in
      let payload = published_payload state in
      elim (Option-cases (room_lines date_of bot_kinds entries)) [
        | inl raises ↦ absurd (cc (rw (raises, list_lines) at h))
        | inr (body, listed) ↦
            let known = known_lem entries entry there (entries-IsKnown state) in
            let (before, rows, after, split, only, shows) =
              room_lines_lem entry.kind bot_kinds (row_of entry) entries body listed known
                (rows_lem entry entries there) in
            let extra = static_part payload (static_extra_lines payload entries) in
            let reply = some-injective (rw (listed, list_lines) at h) in
            (
              before,
              rows,
              after ++ extra,
              sym reply
                  ∙ ap (λ b. or_no_rules b ++ extra) split
                  ∙ reply_lem before rows after extra (heading entry.kind),
              only,
              shows,
            )
      ]
