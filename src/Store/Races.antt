-- ===== src/Store/Races.antt =====
-- An event that arrives before, during or after a refresh. The source awaits the room's state and
-- the admin checks inside `refresh`, so `invalidate` may run between the reading of the room and
-- `install`.
use synapse_guardian.Prelude.{
  ℕ, ◌+◌, ◌≡◌, ◌≤◌, ◌<◌, refl, ◌⊎◌, inl, inr, true, false, some, arith, Text,
}
use synapse_guardian.Unicode.{Unicode}
use synapse_guardian.Matrix.{Api, RoomState}
use synapse_guardian.Policy.Rules.{RuleSet, merge}
use synapse_guardian.Config.{Config}
use synapse_guardian.Store.{room_rules}
use synapse_guardian.Store.Refresh.{
  Store, invalidate, control_filter, read_control_room, install, refresh, must_refresh, get_rules,
}
use synapse_guardian.Store.Cache.{update_due, update_fresh, loaded_read}

module _ ⦃u : Unicode⦄ (config : Config) where
  due :
      (now : ℕ) (s : Store)
      → (s.stale ≡ true) ⊎ (s.loaded_at + config.refresh_interval_ms ≤ now)
      → must_refresh config now s ≡ true
  unfolding must_refresh
  due now s (inl stale) = ground arith
  due now s (inr over) = ground arith

  read_ok :
      (api : Api) (room_id : Text) (state : RoomState)
      → api.get_room_state room_id control_filter ≡ some state
      → read_control_room config api room_id ≡ some (room_rules api state)
  unfolding read_control_room
  read_ok api room_id state h = ground arith

  -- Once the store is stale or the interval is over, `get_rules` returns the static rules merged
  -- with what the control room holds now, if it can be read.
  pub get_rules_reads_room :
      (api : Api) (now later : ℕ) (s : Store) (room_id : Text) (state : RoomState)
      → (s.stale ≡ true) ⊎ (s.loaded_at + config.refresh_interval_ms ≤ now)
      → config.control_room ≡ some room_id
      → api.get_room_state room_id control_filter ≡ some state
      → (get_rules config api now later s).0 ≡ merge config.static_rules (room_rules api state)
  unfolding get_rules
  get_rules_reads_room api now later s room_id state why on read =
      rw (update_due config api now later s (due now s why)) (
        unfold refresh install in
        loaded_read config api s room_id (room_rules api state) on (read_ok api room_id state read))

  not_due :
      (api : Api) (read_at now : ℕ) (rules : RuleSet) (s : Store)
      → now < read_at + config.refresh_interval_ms
      → must_refresh config now (install config api read_at rules s).0 ≡ false
  unfolding must_refresh install
  not_due api read_at now rules s h = ground arith

  -- An event that arrives while a refresh has read the room and not yet installed what it read is
  -- lost: until the interval is over `get_rules` returns the rules from before the event.
  pub event_during_refresh_is_lost :
      (api api' : Api) (read_at now later : ℕ) (old : RuleSet) (s : Store)
      → now < read_at + config.refresh_interval_ms
      → (get_rules config api' now later (install config api read_at old (invalidate s)).0).0 ≡ old
  unfolding get_rules
  event_during_refresh_is_lost api api' read_at now later old s h =
      rw
        (update_fresh config api' now later (install config api read_at old (invalidate s)).0
          (not_due api read_at now old (invalidate s) h))
        (unfold install in refl)
