-- ===== src/Policy/Power.antt =====
-- Room power levels, read from event contents that need not be well formed.
use synapse_guardian.Prelude.{
  ◌-◌, ◌^◌, Bool, false, ◌&&◌, List, [], ◌∷◌, Option, none, some, if◌then◌else◌, Text, codes,
  text_eq, any, not, is_empty,
}
use synapse_guardian.Unicode.{Unicode}
use synapse_guardian.Value.Int.{ℤ, pos}
use synapse_guardian.Value.{
  Value, int, str, arr, obj, Fields, lookup, get, get_or, texts, int_of_text,
}

abbrev pub power_infinite : ℤ
power_infinite = pos (2 ^ 60 - 1)

-- _NO_CREATOR_POWER_VERSIONS
unfoldable pub old_versions : List Text
old_versions =
    []
    ∷ codes "1"
    ∷ codes "2"
    ∷ codes "3"
    ∷ codes "4"
    ∷ codes "5"
    ∷ codes "6"
    ∷ codes "7"
    ∷ codes "8"
    ∷ codes "9"
    ∷ codes "10"
    ∷ codes "11"
    ∷ []

unfoldable pub supports_creator_power : Value → Bool
unfolding old_versions
supports_creator_power (obj content) =
    elim (get_or (codes "room_version") (str (codes "1")) content) [
      | str version ↦ not (any (text_eq version) old_versions)
      | _ ↦ false
    ]
supports_creator_power _ = false

-- the `creators` of `user_power_level`
unfoldable pub creators : Option Text → Fields → List Text
creators create_sender create_content =
    let extra : List Text = elim (get (codes "additional_creators") create_content) [
      | arr xs ↦ texts xs
      | _ ↦ []
    ] in
    elim create_sender [
      | none ↦ extra
      | some sender ↦ if is_empty sender then extra else sender ∷ extra
    ]

unfoldable pub is_creator : Text → Option Text → Value → Bool
unfolding creators
is_creator user_id create_sender (obj content) =
    supports_creator_power (obj content) && any (text_eq user_id) (creators create_sender content)
is_creator user_id create_sender _ = false

module _ ⦃u : Unicode⦄ where
  -- _int
  unfoldable pub int_or : Value → ℤ → ℤ
  int_or (int n) default = n
  int_or (str s) default = elim (int_of_text s) [ none ↦ default | some n ↦ n ]
  int_or _ default = default

  -- m.get(key) of a mapping inside a mapping, `none` where there is no such mapping or key
  unfoldable pub nested : Text → Text → Fields → Option Value
  nested outer key m = elim (get outer m) [ obj inner ↦ lookup key inner | _ ↦ none ]

  unfoldable pub user_power_level : Value → Text → Option Text → Value → ℤ
  unfolding nested
  user_power_level power_levels user_id create_sender create_content =
      if is_creator user_id create_sender create_content
      then power_infinite
      else elim power_levels [
        | obj levels ↦
            let default = int_or (get (codes "users_default") levels) (pos 0) in
            elim (nested (codes "users") user_id levels) [
              | none ↦ default
              | some level ↦ int_or level default
            ]
        | _ ↦ pos 0
      ]

  unfoldable pub event_power_level : Value → Text → Bool → ℤ
  unfolding nested
  event_power_level (obj levels) event_type is_state =
      let fallback =
        if is_state
        then int_or (get (codes "state_default") levels) (pos 50)
        else int_or (get (codes "events_default") levels) (pos 0) in
      elim (nested (codes "events") event_type levels) [
        | none ↦ fallback
        | some level ↦ int_or level fallback
      ]
  event_power_level _ event_type is_state = if is_state then pos 50 else pos 0
