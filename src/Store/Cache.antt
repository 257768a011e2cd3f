-- ===== src/Store/Cache.antt =====
-- What callers of the store may rely on: fresh rules, and static rules that nothing removes.
use synapse_guardian.Prelude.{
  ℕ, ◌+◌, ◌≡◌, ◌<◌, refl, sym, subst, ◌∙◌, ◌⊎◌, inl, inr, true, false, List, [], ◌∷◌, none, some,
  arith, Text, Bool-cases, Option-cases, any, any-append,
}
use synapse_guardian.Unicode.{Unicode}
use synapse_guardian.Matrix.{Api}
use synapse_guardian.Policy.Rules.{RuleSet, merge, is_protected, rule_matches}
use synapse_guardian.Policy.Merging.{is_protected-merge}
use synapse_guardian.Config.{Config}
use synapse_guardian.Store.Refresh.{
  Store, new_store, invalidate, loaded_rules, read_control_room, kept_rules, install, refresh,
  must_refresh, update, get_rules,
}

module _ ⦃u : Unicode⦄ (config : Config) where
  pub update_due :
      (api : Api) (now later : ℕ) (s : Store)
      → must_refresh config now s ≡ true
      → update config api now later s ≡ refresh config api later s
  unfolding update
  update_due api now later s due = rw due

  pub update_fresh :
      (api : Api) (now later : ℕ) (s : Store)
      → must_refresh config now s ≡ false
      → update config api now later s ≡ (s, [])
  unfolding update
  update_fresh api now later s fresh = rw fresh

  fresh_store :
      (now : ℕ) (s : Store)
      → must_refresh config now s ≡ false
      → (s.rules ≡ some (kept_rules config s))
        × (s.stale ≡ false)
        × (now < s.loaded_at + config.refresh_interval_ms)
  unfolding must_refresh
  fresh_store now s h = (ground arith, ground arith, ground arith)

  -- After `get_rules` the store holds the rules that were returned, is not stale, and loaded them
  -- within the refresh interval or just now.
  pub get_rules_fresh :
      (api : Api) (now later : ℕ) (s : Store)
      → let (rules, s', hooks) = get_rules config api now later s in
        (s'.rules ≡ some rules)
        × (s'.stale ≡ false)
        × ((now < s'.loaded_at + config.refresh_interval_ms) ⊎ (s'.loaded_at ≡ later))
  unfolding get_rules
  get_rules_fresh api now later s = elim (Bool-cases (must_refresh config now s)) [
    | inl due ↦
        rw (update_due api now later s due) (unfold refresh install in (refl, refl, inr refl))
    | inr fresh ↦
        let (there, not_stale, recent) = fresh_store now s fresh in
        rw (update_fresh api now later s fresh) (there, not_stale, inl recent)
  ]

  -- The rule set protects everyone that the static rules protect, and blocks everyone that they
  -- block by name.
  pub record CoversStatic (rules : RuleSet) : Type 0 where
    pub covers_protected :
        (id : Text) → is_protected config.static_rules id ≡ true → is_protected rules id ≡ true
    pub covers_blocks :
        (id : Text)
        → any (rule_matches id) config.static_rules.blocked_users ≡ true
        → any (rule_matches id) rules.blocked_users ≡ true

  static-CoversStatic : CoversStatic config.static_rules
  static-CoversStatic = record { covers_protected = λ id h. h; covers_blocks = λ id h. h }

  merge-CoversStatic : (rules : RuleSet) → CoversStatic (merge config.static_rules rules)
  merge-CoversStatic rules = record {
    covers_protected = λ id h. is_protected-merge config.static_rules rules id ∙ rw h refl;
    covers_blocks = λ id h.
        unfold merge in
        rw (any-append (rule_matches id) config.static_rules.blocked_users rules.blocked_users, h)
          refl;
  }

  -- what the store holds covers the static rules
  abbrev pub StoreCovers : Store → Type 0
  StoreCovers s = elim s.rules [ none ↦ Unit | some rules ↦ CoversStatic rules ]

  kept-CoversStatic : (s : Store) → StoreCovers s → CoversStatic (kept_rules config s)
  kept-CoversStatic s h = elim (Option-cases s.rules) [
    | inl absent ↦ rw absent static-CoversStatic
    | inr (rules, there) ↦ rw there (rw there at h)
  ]

  pub loaded_off :
      (api : Api) (s : Store)
      → config.control_room ≡ none
      → loaded_rules config api s ≡ config.static_rules
  unfolding loaded_rules
  loaded_off api s off = ground arith

  pub loaded_failed :
      (api : Api) (s : Store) (room_id : Text)
      → config.control_room ≡ some room_id
      → read_control_room config api room_id ≡ none
      → loaded_rules config api s ≡ kept_rules config s
  unfolding loaded_rules
  loaded_failed api s room_id on failed = ground arith

  pub loaded_read :
      (api : Api) (s : Store) (room_id : Text) (rules : RuleSet)
      → config.control_room ≡ some room_id
      → read_control_room config api room_id ≡ some rules
      → loaded_rules config api s ≡ merge config.static_rules rules
  unfolding loaded_rules
  loaded_read api s room_id rules on read = ground arith

  loaded-CoversStatic :
      (api : Api) (s : Store) → StoreCovers s → CoversStatic (loaded_rules config api s)
  loaded-CoversStatic api s h = elim (Option-cases config.control_room) [
    | inl off ↦ subst CoversStatic (sym (loaded_off api s off)) static-CoversStatic
    | inr (room_id, on) ↦ elim (Option-cases (read_control_room config api room_id)) [
      | inl failed ↦
          subst CoversStatic (sym (loaded_failed api s room_id on failed)) (kept-CoversStatic s h)
      | inr (rules, read) ↦
          subst CoversStatic (sym (loaded_read api s room_id rules on read))
            (merge-CoversStatic rules)
    ]
  ]

  update-StoreCovers :
      (api : Api) (now later : ℕ) (s : Store)
      → StoreCovers s
      → StoreCovers (update config api now later s).0
  update-StoreCovers api now later s h = elim (Bool-cases (must_refresh config now s)) [
    | inl due ↦
        rw (update_due api now later s due) (unfold refresh install in loaded-CoversStatic api s h)
    | inr fresh ↦ rw (update_fresh api now later s fresh) h
  ]

  -- What happens to the store: a caller asks for the rules, at some time and with some answers of
  -- the API, or an event of the control room makes them stale.
  pub data Request : Type 0 where
    ask : Api → ℕ → ℕ → Request
    notice_event : Request

  pub after : List Request → Store → Store
  after [] s = s
  after (ask api now later ∷ requests) s = after requests (update config api now later s).0
  after (notice_event ∷ requests) s = after requests (invalidate s)

  after-StoreCovers :
      (requests : List Request) (s : Store) → StoreCovers s → StoreCovers (after requests s)
  unfolding after invalidate
  after-StoreCovers [] s h = h
  after-StoreCovers (ask api now later ∷ requests) s h =
      after-StoreCovers requests (update config api now later s).0
        (update-StoreCovers api now later s h)
  after-StoreCovers (notice_event ∷ requests) s h = after-StoreCovers requests (invalidate s) h

  -- Whatever has happened since the start, and whatever the control room holds or whether it can be
  -- read at all, the rules that `get_rules` returns protect every statically protected user and
  -- hold every static block of a user.
  pub get_rules-CoversStatic :
      (requests : List Request) (api : Api) (now later : ℕ)
      → CoversStatic (get_rules config api now later (after requests new_store)).0
  unfolding get_rules
  get_rules-CoversStatic requests api now later =
      let s = after requests new_store in
      kept-CoversStatic (update config api now later s).0
        (update-StoreCovers api now later s (after-StoreCovers requests new_store tt))
