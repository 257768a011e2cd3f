-- ===== src/Notify/Safety.antt =====
-- A notice cannot forge a second line, and its length is bounded.
use synapse_guardian.Prelude.{
  ℕ, ◌≤◌, ◌≡◌, refl, Bool, true, false, ◌&&◌, [], ◌∷◌, ◌++◌, map, Option, none, some, arith, ltb,
  if◌then◌else◌, Bool-cases, inl, inr, Text, codes, length, take, All, length-append, length-map,
  length-take,
}
use synapse_guardian.Notify.{is_unsafe, safe_char, sanitise, where_text, format_block, max_id_len}

abbrev pub IsSafe : Text → Type 0
IsSafe = All (λ c. is_unsafe c ≡ false)

safe_char-safe : (c : ℕ) → is_unsafe (safe_char c) ≡ false
unfolding safe_char is_unsafe
safe_char-safe c = ground arith

map-safe_char-IsSafe : (s : Text) → IsSafe (map safe_char s)
map-safe_char-IsSafe [] = tt
map-safe_char-IsSafe (c ∷ s) = (safe_char-safe c, map-safe_char-IsSafe s)

sanitise-IsSafe : (s : Text) → IsSafe (sanitise s)
unfolding sanitise
sanitise-IsSafe s = map-safe_char-IsSafe _

abbrev max_sanitised : ℕ
max_sanitised = 269

length-sanitise : (s : Text) → length (sanitise s) ≤ max_sanitised
unfolding sanitise
length-sanitise s = elim (Bool-cases (ltb max_id_len (length s))) [
  | inl long ↦ rw long (
      omega (
        arith,
        length-map safe_char (take max_id_len s ++ codes "...(truncated)"),
        length-append (take max_id_len s) (codes "...(truncated)"),
        length-take max_id_len s,
      ))
  | inr short ↦ rw short (ground (arith, length-map safe_char s))
]

all_safe : Text → Bool
all_safe [] = true
all_safe (c ∷ s) = if is_unsafe c then false else all_safe s

all_safe→IsSafe : (s : Text) → all_safe s ≡ true → IsSafe s
unfolding all_safe
all_safe→IsSafe [] h = tt
all_safe→IsSafe (c ∷ s) h = ground (arith, all_safe→IsSafe s)

IsSafe→all_safe : (s : Text) → IsSafe s → all_safe s ≡ true
unfolding all_safe
IsSafe→all_safe [] h = refl
IsSafe→all_safe (c ∷ s) h = ground (arith, IsSafe→all_safe s)

all_safe-append : (s t : Text) → all_safe (s ++ t) ≡ (all_safe s && all_safe t)
unfolding all_safe
all_safe-append [] t = refl
all_safe-append (c ∷ s) t = ground (arith, all_safe-append s t)

all_safe-sanitise : (s : Text) → all_safe (sanitise s) ≡ true
all_safe-sanitise s = IsSafe→all_safe (sanitise s) (sanitise-IsSafe s)

all_safe-where : (room_id : Option Text) → all_safe (where_text room_id) ≡ true
unfolding all_safe where_text is_unsafe
all_safe-where none = refl
all_safe-where (some []) = refl
all_safe-where (some (c ∷ s)) = simp all_safe-sanitise

all_safe-format_block :
    (kind actor target : Text) (room_id : Option Text) (rule : Text) (dry_run : Bool)
    → all_safe (format_block kind actor target room_id rule dry_run) ≡ true
unfolding all_safe format_block is_unsafe
all_safe-format_block kind actor target room_id rule true =
    simp (all_safe-append, all_safe-sanitise, all_safe-where)
all_safe-format_block kind actor target room_id rule false =
    simp (all_safe-append, all_safe-sanitise, all_safe-where)

-- Whatever the identifiers, a notice holds no character below U+0020 and no U+007F, so no line
-- feed.
pub format_block-IsSafe :
    (kind actor target : Text) (room_id : Option Text) (rule : Text) (dry_run : Bool)
    → IsSafe (format_block kind actor target room_id rule dry_run)
format_block-IsSafe kind actor target room_id rule dry_run =
    all_safe→IsSafe _ (all_safe-format_block kind actor target room_id rule dry_run)

length-where : (room_id : Option Text) → length (where_text room_id) ≤ 273
unfolding where_text
length-where none = omega arith
length-where (some []) = omega arith
length-where (some (c ∷ s)) = omega (arith, length-sanitise (c ∷ s))

-- A notice has at most 1,397 characters, whatever the identifiers.
pub length-format_block-le :
    (kind actor target : Text) (room_id : Option Text) (rule : Text) (dry_run : Bool)
    → length (format_block kind actor target room_id rule dry_run) ≤ 1397
unfolding format_block
length-format_block-le kind actor target room_id rule true =
    omega (arith, length-append {0}, length-sanitise, length-where)
length-format_block-le kind actor target room_id rule false =
    omega (arith, length-append {0}, length-sanitise, length-where)
