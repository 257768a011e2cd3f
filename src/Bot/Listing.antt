-- ===== src/Bot/Listing.antt =====
-- bot/guardian_bot/__init__.py: the lines of `!guard list`, as data. Laying them out as Markdown is left
-- out.
pub mod Clashes
pub mod Sorted
pub mod Described
pub mod Rows
use synapse_guardian.Prelude.{
  Bool, true, false, not, ◌&&◌, ◌||◌, List, [], ◌∷◌, ◌++◌, Option, none, some, if◌then◌else◌, Text,
  codes, text_eq, any, keep, map,
}
use synapse_guardian.Value.Int.{ℤ, pos}
use synapse_guardian.Value.{
  Value, null, bool, int, float, str, arr, obj, other, Fields, end, field, get, texts, truthy,
}
use synapse_guardian.Value.Equal.{value_eq}
use synapse_guardian.TextSet.{text_ltb}
use synapse_guardian.Matrix.{Event, RoomState, state_at}
use synapse_guardian.Policy.Kinds.{Kind, kind_name, plural}
use synapse_guardian.Publish.{effective_rules_type}
use synapse_guardian.Bot.{BotEntry, bot_kinds, content_dict, entries_from_state}

infixl 5 ◌>>=◌
abbrev pub ◌>>=◌ : {A : Type 0} {B : Type 0} → Option A → (A → Option B) → Option B
none >>= f = none
some a >>= f = f a

-- what stands behind an entity: who added it, on what day, and why
pub data Meta : Type 0 where
  by : Value → Meta
  on : Text → Meta
  because : Value → Meta

pub data Line : Type 0 where
  heading : Kind → Line
  row : Text → List Meta → Line
  no_rules : Line
  blank : Line
  static_heading : Kind → Line
  static_row : Text → Line
  not_published : Line

-- `published_payload`; an empty content counts as none
unfoldable pub published_payload : RoomState → Option Fields
published_payload state = elim (state_at effective_rules_type [] state) [
  | none ↦ none
  | some e ↦ elim (content_dict e.content) [ end ↦ none | field k v rest ↦ some (field k v rest) ]
]

abbrev pub Row : Type 0
Row = Text × Value

abbrev pub row_of : BotEntry → Row
row_of entry = (entry.entity, obj entry.content)

unfoldable pub rows_of : Kind → List BotEntry → List Row
rows_of kind entries =
    map row_of
      (keep (λ (entry : BotEntry). text_eq (kind_name entry.kind) (kind_name kind)) entries)

-- Two rows that Python cannot order: the entities are equal, so that the contents would be compared,
-- and mappings have no order.
abbrev pub clash : Row → Row → Bool
clash (entity, content) (entity', content') =
    text_eq entity entity' && not (value_eq content content')

unfoldable pub any_clash : List Row → Bool
any_clash [] = false
any_clash (first ∷ rows) = any (clash first) rows || any_clash rows

unfoldable pub insert_row : Row → List Row → List Row
insert_row new [] = new ∷ []
insert_row new (first ∷ rows) =
    let later = insert_row new rows in
    if text_ltb first.0 new.0 then first ∷ later else new ∷ first ∷ rows

unfoldable pub sort_rows : List Row → List Row
sort_rows [] = []
sort_rows (first ∷ rows) = insert_row first (sort_rows rows)

-- sorted(rows), `none` where it raises TypeError
unfoldable pub sorted_rows : List Row → Option (List Row)
sorted_rows rows = if any_clash rows then none else some (sort_rows rows)

unfoldable pub insert_text : Text → List Text → List Text
insert_text new [] = new ∷ []
insert_text new (first ∷ others) =
    let later = insert_text new others in
    if text_ltb first new then first ∷ later else new ∷ first ∷ others

-- sorted(texts)
unfoldable pub sorted_texts : List Text → List Text
sorted_texts [] = []
sorted_texts (first ∷ others) = insert_text first (sorted_texts others)

-- isinstance(v, int), with the number
abbrev int_value : Value → Option ℤ
int_value (int n) = some n
int_value (bool true) = some (pos 1)
int_value (bool false) = some (pos 0)
int_value _ = none

abbrev when_set : (Value → Meta) → Value → List Meta
when_set kind_of_meta v = if truthy v then kind_of_meta v ∷ [] else []

abbrev pub headed : Kind → List Row → List Line → List Line
headed kind [] lines = []
headed kind (first ∷ rows) lines = heading kind ∷ lines

-- time.strftime("%Y-%m-%d", time.gmtime(ts / 1000)); `none` where the time is out of range
module _ (date_of : ℤ → Option Text) where
  -- the `meta` of a row, `none` where its date raises
  unfoldable pub meta_of : Fields → Option (List Meta)
  meta_of content =
      let front = when_set by (get (codes "added_by") content) in
      let back = when_set because (get (codes "reason") content) in
      elim (int_value (get (codes "ts") content)) [
        | none ↦ some (front ++ back)
        | some ts ↦ elim (date_of ts) [ none ↦ none | some day ↦ some (front ++ on day ∷ back) ]
      ]

  unfoldable pub row_lines : List Row → Option (List Line)
  row_lines [] = some []
  row_lines ((entity, content) ∷ rows) = do
    meta ← meta_of (content_dict content)
    rest ← row_lines rows
    some (row entity meta ∷ rest)

  -- one round of the loop over KINDS
  unfoldable pub kind_lines : Kind → List BotEntry → Option (List Line)
  kind_lines kind entries = do
    rows ← sorted_rows (rows_of kind entries)
    lines ← row_lines rows
    some (headed kind rows lines)

  unfoldable pub room_lines : List Kind → List BotEntry → Option (List Line)
  room_lines [] entries = some []
  room_lines (kind ∷ kinds) entries = do
    first ← kind_lines kind entries
    rest ← room_lines kinds entries
    some (first ++ rest)

-- (kind, p) in shown
unfoldable pub is_shown : List BotEntry → Kind → Text → Bool
is_shown shown kind p =
    any
      (λ (entry : BotEntry).
        text_eq (kind_name entry.kind) (kind_name kind) && text_eq entry.entity p)
      shown

abbrev static_lines : Kind → List Text → List Line
static_lines kind [] = []
static_lines kind (p ∷ extra) = static_heading kind ∷ map static_row (sorted_texts (p ∷ extra))

-- one round of the loop of `static_extra_lines`
unfoldable pub static_kind_lines : Fields → List BotEntry → Kind → List Line
static_kind_lines static shown kind = elim (get (plural kind) static) [
  | arr patterns ↦ static_lines kind (keep (λ p. not (is_shown shown kind p)) (texts patterns))
  | _ ↦ []
]

unfoldable pub static_all_lines : List Kind → Fields → List BotEntry → List Line
static_all_lines [] static shown = []
static_all_lines (kind ∷ kinds) static shown =
    static_kind_lines static shown kind ++ static_all_lines kinds static shown

-- `static_extra_lines`
unfoldable pub static_extra_lines : Option Fields → List BotEntry → List Line
static_extra_lines none shown = []
static_extra_lines (some payload) shown = elim (get (codes "static") payload) [
  | obj static ↦ static_all_lines bot_kinds static shown
  | _ ↦ []
]

abbrev or_no_rules : List Line → List Line
or_no_rules [] = no_rules ∷ []
or_no_rules (line ∷ lines) = line ∷ lines

-- what `list_cmd` says of the static rules
abbrev static_part : Option Fields → List Line → List Line
static_part payload (line ∷ extra) = blank ∷ line ∷ extra
static_part none [] = blank ∷ not_published ∷ []
static_part (some payload) [] = []

-- the lines of the reply of `list_cmd`, `none` where it raises
unfoldable pub list_lines : (ℤ → Option Text) → RoomState → Option (List Line)
list_lines date_of state =
    let entries = entries_from_state state in
    let payload = published_payload state in
    elim (room_lines date_of bot_kinds entries) [
      | none ↦ none
      | some lines ↦
          some (or_no_rules lines ++ static_part payload (static_extra_lines payload entries))
    ]
