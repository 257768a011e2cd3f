-- ===== src/Store/Refresh.antt =====
-- `PolicyStore`: `get_rules`, `refresh`, `invalidate` and the check for protected admins.
use synapse_guardian.Prelude.{
  ℕ, ◌+◌, Bool, true, false, ◌||◌, List, [], ◌∷◌, ◌++◌, map, Option, none, some, leb, if◌then◌else◌,
  Text,
}
use synapse_guardian.Unicode.{Unicode}
use synapse_guardian.TextSet.{TextSet, member, insert, discard}
use synapse_guardian.Matrix.{Api, Filter}
use synapse_guardian.Policy.Kinds.{all_kinds}
use synapse_guardian.Policy.Rules.{RuleSet, merge}
use synapse_guardian.Config.{Config}
use synapse_guardian.Store.{event_type_of, power_levels_type, create_type, room_rules}

pub record Store : Type 0 where
  pub rules : Option RuleSet
  pub loaded_at : ℕ
  pub stale : Bool
  pub warned_admins : TextSet

abbrev pub new_store : Store
new_store = record { rules = none; loaded_at = 0; stale = true; warned_admins = [] }

-- What a refresh makes the module do: `on_admin_protected` and `on_rules_loaded`.
pub data Hook : Type 0 where
  admin_protected : Text → Hook
  rules_loaded : RuleSet → Hook

-- self._stale = True
unfoldable pub invalidate : Store → Store
invalidate s = record s { stale = true }

-- The filter of `_read_control_room`.
unfoldable pub control_filter : Filter
control_filter =
    map (λ kind. (event_type_of kind, none)) all_kinds
    ++ (power_levels_type, some []) ∷ (create_type, some []) ∷ []

-- One round of `_check_admins`: the users warned of so far, and whether to notify.
unfoldable pub check_admin : Api → TextSet → Text → TextSet × List Hook
check_admin api warned user_id = elim (api.is_user_admin user_id) [
  | none ↦ (warned, [])
  | some false ↦ (discard user_id warned, [])
  | some true ↦
      if member user_id warned
      then (warned, [])
      else (insert user_id warned, admin_protected user_id ∷ [])
]

unfoldable pub check_admins : Api → TextSet → List Text → TextSet × List Hook
check_admins api warned [] = (warned, [])
check_admins api warned (user_id ∷ users) =
    let (warned', hooks) = check_admin api warned user_id in
    let (warned'', later) = check_admins api warned' users in (warned'', hooks ++ later)

module _ ⦃u : Unicode⦄ (config : Config) where
  -- `none`: reading the control room raised
  unfoldable pub read_control_room : Api → Text → Option RuleSet
  read_control_room api room_id = elim (api.get_room_state room_id control_filter) [
    | none ↦ none
    | some state ↦ some (room_rules api state)
  ]

  -- previous rules, or the static ones
  abbrev pub kept_rules : Store → RuleSet
  kept_rules s = elim s.rules [ none ↦ config.static_rules | some rules ↦ rules ]

  -- the rules that a refresh arrives at
  unfoldable pub loaded_rules : Api → Store → RuleSet
  loaded_rules api s = elim config.control_room [
    | none ↦ config.static_rules
    | some room_id ↦ elim (read_control_room api room_id) [
      | none ↦ kept_rules s
      | some rules ↦ merge config.static_rules rules
    ]
  ]

  -- `refresh` from where it has read the room: `rules` becomes the current rule set
  unfoldable pub install : Api → ℕ → RuleSet → Store → Store × List Hook
  install api now rules s =
      let (warned, hooks) = check_admins api s.warned_admins rules.protected_users in
      (
        record { rules = some rules; loaded_at = now; stale = false; warned_admins = warned },
        hooks ++ rules_loaded rules ∷ [],
      )

  unfoldable pub refresh : Api → ℕ → Store → Store × List Hook
  refresh api now s = install api now (loaded_rules api s) s

  abbrev is_absent : Option RuleSet → Bool
  is_absent none = true
  is_absent (some rules) = false

  unfoldable pub must_refresh : ℕ → Store → Bool
  must_refresh now s =
      is_absent s.rules || s.stale || leb (s.loaded_at + config.refresh_interval_ms) now

  -- `now` is the clock at the call, and `later` the clock when a refresh has read the room
  unfoldable pub update : Api → ℕ → ℕ → Store → Store × List Hook
  update api now later s = if must_refresh now s then refresh api later s else (s, [])

  -- `get_rules`: the rules, the store and what the refresh calls
  unfoldable pub get_rules : Api → ℕ → ℕ → Store → RuleSet × Store × List Hook
  get_rules api now later s = let (s', hooks) = update api now later s in (kept_rules s', s', hooks)
