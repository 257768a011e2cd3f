-- ===== src/Store/Refinement.antt =====
-- What the store promises, without its representation: a view of the control room that is renewed when it
-- has expired, and whose answers are the static rules with those of the last reading.
use synapse_guardian.Prelude.{
  ℕ, ◌+◌, ◌≡◌, refl, sym, ap, ap₂, ◌∙◌, inl, inr, Bool, true, List, [], ◌∷◌, Option, none, some,
  arith, leb, Text, if◌then◌else◌, Bool-cases, Option-cases,
}
use synapse_guardian.Unicode.{Unicode}
use synapse_guardian.Matrix.{Api}
use synapse_guardian.Policy.Rules.{RuleSet, merge}
use synapse_guardian.Config.{Config}
use synapse_guardian.Store.Refresh.{
  Store, new_store, invalidate, loaded_rules, read_control_room, kept_rules, install, refresh,
  must_refresh, update, get_rules,
}
use synapse_guardian.Store.Cache.{
  Request, ask, notice_event, update_due, update_fresh, loaded_off, loaded_failed, loaded_read,
}

-- The rules of the last reading that succeeded, and the time at which the view expires; it has expired
-- where there is no such time.
pub record View : Type 0 where
  pub seen : Option RuleSet
  pub expires : Option ℕ

abbrev pub new_view : View
new_view = record { seen = none; expires = none }

pub has_expired : ℕ → View → Bool
has_expired now v = elim v.expires [ none ↦ true | some time ↦ leb time now ]

abbrev later_or {ℓ} : {A : Type ℓ} → Option A → Option A → Option A
later_or (some a) earlier = some a
later_or none earlier = earlier

module _ ⦃u : Unicode⦄ (config : Config) where
  -- what a reading of the control room gives, if there is one and it can be read
  reading : Api → Option RuleSet
  reading api = elim config.control_room [
    | none ↦ none
    | some room_id ↦ read_control_room config api room_id
  ]

  effective : Option RuleSet → RuleSet
  effective none = config.static_rules
  effective (some rules) = merge config.static_rules rules

  view_after : Api → ℕ → ℕ → View → View
  view_after api now later v =
      if has_expired now v
      then record {
        seen = later_or (reading api) v.seen;
        expires = some (later + config.refresh_interval_ms);
      }
      else v

  -- what the requests are answered: by the view, and by the store
  pub promised : List (Request config) → View → List RuleSet
  promised [] v = []
  promised (ask api now later ∷ requests) v =
      let v' = view_after api now later v in effective v'.seen ∷ promised requests v'
  promised (notice_event ∷ requests) v = promised requests (record v { expires = none })

  pub answers : List (Request config) → Store → List RuleSet
  answers [] s = []
  answers (ask api now later ∷ requests) s =
      let (rules, s', hooks) = get_rules config api now later s in rules ∷ answers requests s'
  answers (notice_event ∷ requests) s = answers requests (invalidate s)

  -- the store stands for the view
  record Represents (s : Store) (v : View) : Type 0 where
    same_rules : kept_rules config s ≡ effective v.seen
    same_expiry : (now : ℕ) → must_refresh config now s ≡ has_expired now v
    same_room : config.control_room ≡ none → v.seen ≡ none

  invalidate-Represents :
      (s : Store) (v : View)
      → Represents s v
      → Represents (invalidate s) (record v { expires = none })
  unfolding invalidate must_refresh has_expired
  invalidate-Represents s v r = record {
    same_rules = r.same_rules;
    same_expiry = λ now. ground arith;
    same_room = r.same_room;
  }

  reading_off : (api : Api) → config.control_room ≡ none → reading api ≡ none
  unfolding reading
  reading_off api off = rw (off, reading) refl

  reading_on :
      (api : Api) (room_id : Text)
      → config.control_room ≡ some room_id
      → reading api ≡ read_control_room config api room_id
  unfolding reading read_control_room
  reading_on api room_id on = rw (on, reading) refl

  loaded_lem :
      (api : Api) (s : Store) (v : View)
      → Represents s v
      → loaded_rules config api s ≡ effective (later_or (reading api) v.seen)
  unfolding effective
  loaded_lem api s v r = elim (Option-cases config.control_room) [
    | inl off ↦
        loaded_off config api s off
        ∙ sym (ap effective (ap₂ later_or (reading_off api off) (r.same_room off)))
    | inr (room_id, on) ↦ elim (Option-cases (read_control_room config api room_id)) [
      | inl failed ↦
          loaded_failed config api s room_id on failed
          ∙ r.same_rules
          ∙ sym (ap (λ room. effective (later_or room v.seen)) (reading_on api room_id on ∙ failed))
      | inr (rules, read) ↦
          loaded_read config api s room_id rules on read
          ∙ sym (ap (λ room. effective (later_or room v.seen)) (reading_on api room_id on ∙ read))
    ]
  ]

  seen_off :
      (api : Api) (v : View)
      → config.control_room ≡ none
      → v.seen ≡ none
      → later_or (reading api) v.seen ≡ none
  seen_off api v off none_seen = ap₂ later_or (reading_off api off) none_seen

  update-Represents :
      (api : Api) (now later : ℕ) (s : Store) (v : View)
      → Represents s v
      → Represents (update config api now later s).0 (view_after api now later v)
  unfolding view_after
  update-Represents api now later s v r = elim (Bool-cases (must_refresh config now s)) [
    | inr fresh ↦ rw (update_fresh config api now later s fresh, sym (r.same_expiry now) ∙ fresh) r
    | inl due ↦
        rw (update_due config api now later s due, sym (r.same_expiry now) ∙ due)
          (record {
            same_rules = unfold refresh install in loaded_lem api s v r;
            same_expiry = λ t. unfold refresh install must_refresh has_expired in ground arith;
            same_room = λ off. seen_off api v off (r.same_room off);
          })
  ]

  simulates :
      (requests : List (Request config)) (s : Store) (v : View)
      → Represents s v
      → answers requests s ≡ promised requests v
  unfolding answers promised get_rules
  simulates [] s v r = refl
  simulates (ask api now later ∷ requests) s v r =
      let r' = update-Represents api now later s v r in
      ap₂ ◌∷◌ r'.same_rules (simulates requests _ _ r')
  simulates (notice_event ∷ requests) s v r =
      simulates requests (invalidate s) (record v { expires = none }) (invalidate-Represents s v r)

  -- The store keeps its promise: whatever is asked from the start on, at whatever times, with whatever
  -- answers of the API and events of the control room in between, it answers with the static rules and
  -- those of the last reading of the room that succeeded, and reads the room when its view has expired.
  pub store_refines_view :
      (requests : List (Request config)) → answers requests new_store ≡ promised requests new_view
  store_refines_view requests = simulates requests new_store new_view (record {
    same_rules = unfold effective in refl;
    same_expiry = λ now. unfold must_refresh has_expired in refl;
    same_room = λ off. refl;
  })
