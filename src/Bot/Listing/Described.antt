-- ===== src/Bot/Listing/Described.antt =====
-- What a row of `!guard list` tells of an entry.
use synapse_guardian.Prelude.{
  some-injective, ◌≡◌, refl, ◌++◌, codes, Bool, true, false, subst, inl, inr, List, [], ◌∷◌, Option,
  none, some, Text, Bool-cases, Option-cases,
}
use synapse_guardian.Value.Int.{ℤ, pos}
use synapse_guardian.Value.{
  Value, null, bool, int, float, str, arr, obj, other, Fields, get, truthy,
}
use synapse_guardian.Bot.Listing.{Meta, by, on, because, when_set, int_value, meta_of}

pub data When (shown_as : Value → Meta) : Value → List Meta → Type 0 where
  shown : (v : Value) → truthy v ≡ true → When shown_as v (shown_as v ∷ [])
  hidden : (v : Value) → truthy v ≡ false → When shown_as v []

abbrev pub is_number : Value → Bool
is_number (int n) = true
is_number (bool b) = true
is_number _ = false

-- True counts as 1, and False as 0.
pub data OnDay (date_of : ℤ → Option Text) : Value → List Meta → Type 0 where
  dated : (n : ℤ) (day : Text) → date_of n ≡ some day → OnDay date_of (int n) (on day ∷ [])
  dated_true : (day : Text) → date_of (pos 1) ≡ some day → OnDay date_of (bool true) (on day ∷ [])
  dated_false : (day : Text) → date_of (pos 0) ≡ some day → OnDay date_of (bool false) (on day ∷ [])
  undated : (v : Value) → is_number v ≡ false → OnDay date_of v []

-- Who added an entry, on what day, and why, as far as its content says it.
pub data Describes (date_of : ℤ → Option Text) (content : Fields) : List Meta → Type 0 where
  describes :
      (who day why : List Meta)
      → When by (get (codes "added_by") content) who
      → OnDay date_of (get (codes "ts") content) day
      → When because (get (codes "reason") content) why
      → Describes date_of content (who ++ (day ++ why))

when_lem : (shown_as : Value → Meta) (v : Value) → When shown_as v (when_set shown_as v)
when_lem shown_as v = elim (Bool-cases (truthy v)) [
  | inl yes_it_is ↦ rw yes_it_is (shown v yes_it_is)
  | inr no_it_is_not ↦ rw no_it_is_not (hidden v no_it_is_not)
]

module _ (date_of : ℤ → Option Text) where
  day_lem :
      (v : Value) (front back meta : List Meta)
      → elim (int_value v) [
        | none ↦ some (front ++ back)
        | some ts ↦ elim (date_of ts) [ none ↦ none | some day ↦ some (front ++ on day ∷ back) ]
      ]
        ≡ some meta
      → (day : List Meta) × OnDay date_of v day × (front ++ (day ++ back) ≡ meta)
  day_lem (int n) front back meta h = elim (Option-cases (date_of n)) [
    | inl raises ↦ absurd (cc (rw raises at h))
    | inr (day, falls_on) ↦ (on day ∷ [], dated n day falls_on, some-injective (rw falls_on at h))
  ]
  day_lem (bool true) front back meta h = elim (Option-cases (date_of (pos 1))) [
    | inl raises ↦ absurd (cc (rw raises at h))
    | inr (day, falls_on) ↦
        (on day ∷ [], dated_true day falls_on, some-injective (rw falls_on at h))
  ]
  day_lem (bool false) front back meta h = elim (Option-cases (date_of (pos 0))) [
    | inl raises ↦ absurd (cc (rw raises at h))
    | inr (day, falls_on) ↦
        (on day ∷ [], dated_false day falls_on, some-injective (rw falls_on at h))
  ]
  day_lem null front back meta h = ([], undated _ refl, some-injective h)
  day_lem (float n) front back meta h = ([], undated _ refl, some-injective h)
  day_lem (str t) front back meta h = ([], undated _ refl, some-injective h)
  day_lem (arr items) front back meta h = ([], undated _ refl, some-injective h)
  day_lem (obj m) front back meta h = ([], undated _ refl, some-injective h)
  day_lem other front back meta h = ([], undated _ refl, some-injective h)

  pub meta_lem :
      (content : Fields) (meta : List Meta)
      → meta_of date_of content ≡ some meta
      → Describes date_of content meta
  unfolding meta_of
  meta_lem content meta h =
      let who = get (codes "added_by") content in
      let why = get (codes "reason") content in
      let (day, falls_on, split) =
        day_lem (get (codes "ts") content) (when_set by who) (when_set because why) meta h in
      subst (Describes date_of content) split (
        describes (when_set by who) day (when_set because why) (when_lem by who) falls_on
          (when_lem because why))
