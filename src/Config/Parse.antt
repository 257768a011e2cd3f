-- ===== src/Config/Parse.antt =====
-- `GuardianConfig.parse`, check by check. `read_file` gives the text of a file, or `none` for an
-- OSError.
use synapse_guardian.Prelude.{
  zero, Bool, true, false, not, ◌&&◌, [], ◌∷◌, Option, none, some, if◌then◌else◌, Text, codes,
  starts_with, is_empty,
}
use synapse_guardian.Prelude.Result.{Result, ok, err, ◌>>=◌, ◌>>◌}
use synapse_guardian.Unicode.{Unicode}
use synapse_guardian.Value.Int.{pos}
use synapse_guardian.Value.{
  Value, null, bool, int, float, str, arr, obj, nil, Fields, end, lookup, get_or, is_set, strip,
}
use synapse_guardian.Policy.Kinds.{all_kinds}
use synapse_guardian.Policy.Patterns.{is_user_id}
use synapse_guardian.Policy.Rules.{RuleSet, build_strict}
use synapse_guardian.Config.{
  Transport, room, bot, ConfigError, both_set, unreadable, empty_file, not_a_mapping,
  trusted_senders_removed, unknown_keys, invalid_rule, not_a_room_id, not_a_notify_user,
  needs_control_room, needs_notify_user, needs_notify_url, needs_notify_secret, opt_str,
  set_or_none, bool_or, number_or, join_policy_of, transport_of, Config, unknown_of, config_entries,
}

-- cfg or {}, if it is a dict
unfoldable pub mapping_of : Value → Result ConfigError Fields
mapping_of null = ok end
mapping_of (bool false) = ok end
mapping_of (int (pos zero)) = ok end
mapping_of (float (pos zero)) = ok end
mapping_of (str []) = ok end
mapping_of (arr nil) = ok end
mapping_of (obj cfg) = ok cfg
mapping_of _ = err not_a_mapping

has_key : Text → Fields → Bool
has_key key cfg = elim (lookup key cfg) [ none ↦ false | some v ↦ true ]

unfoldable pub check_keys : Fields → Result ConfigError (Unit {0})
unfolding has_key
check_keys cfg =
    if has_key (codes "trusted_senders") cfg
    then err trusted_senders_removed
    else elim (unknown_of cfg) [ [] ↦ ok tt | k ∷ ks ↦ err (unknown_keys (k ∷ ks)) ]

unfoldable pub check_control_room : Option Text → Result ConfigError (Unit {0})
check_control_room none = ok tt
check_control_room (some room_id) = if starts_with b'!' room_id then ok tt else err not_a_room_id

-- the last check of `parse`: what the chosen transport needs
unfoldable pub check_transport :
    Bool
    → Transport
    → Option Text
    → Option Text
    → Option Text
    → Option Text
    → Result ConfigError (Unit {0})
check_transport false via control_room notify_user url secret = ok tt
check_transport true room none notify_user url secret = err needs_control_room
check_transport true room (some c) none url secret = err needs_notify_user
check_transport true room (some c) (some n) url secret = ok tt
check_transport true bot control_room notify_user url secret =
    if not (is_set url)
    then err needs_notify_url
    else if not (is_set secret)
    then err needs_notify_secret
    else ok tt

module _ ⦃u : Unicode⦄ where
  unfoldable pub check_notify_user : Option Text → Result ConfigError (Unit {0})
  check_notify_user none = ok tt
  check_notify_user (some id) = if is_user_id id then ok tt else err not_a_notify_user

  unfoldable pub static_rules_of : Fields → Result ConfigError RuleSet
  static_rules_of cfg = do
    entries ← config_entries cfg all_kinds
    elim (build_strict entries) [ ok rules ↦ ok rules | err report ↦ err (invalid_rule report) ]

module _ ⦃u : Unicode⦄ (read_file : Text → Option Text) where
  read_secret : Text → Text → Result ConfigError (Option Text)
  read_secret key path = elim (read_file path) [
    | none ↦ err (unreadable key)
    | some content ↦
        if is_empty (strip content) then err (empty_file key) else ok (some (strip content))
  ]

  -- _secret
  unfoldable pub secret : Fields → Text → Text → Result ConfigError (Option Text)
  unfolding read_secret
  secret cfg key path_key = do
    inline ← opt_str cfg key
    path ← opt_str cfg path_key
    if is_set inline && is_set path then err (both_set key) else elim (set_or_none path) [
      | none ↦ ok (set_or_none inline)
      | some p ↦ read_secret path_key p
    ]

  -- `parse` of a mapping
  unfoldable pub parse_mapping : Fields → Result ConfigError Config
  parse_mapping cfg = do
    check_keys cfg
    static_rules ← static_rules_of cfg
    control_room ← opt_str cfg (codes "control_room")
    check_control_room control_room
    uninvited_joins ←
        join_policy_of (get_or (codes "uninvited_joins") (str (codes "known_rooms")) cfg)
    notify_room ← bool_or cfg (codes "notify_room") false
    notify_user ← opt_str cfg (codes "notify_user")
    check_notify_user notify_user
    notify_via ← transport_of (get_or (codes "notify_via") (str (codes "room")) cfg)
    notify_url ← opt_str cfg (codes "notify_url")
    notify_secret ← secret cfg (codes "notify_secret") (codes "notify_secret_path")
    check_transport notify_room notify_via control_room notify_user notify_url notify_secret
    notify_dedupe_ms ← number_or cfg (codes "notify_dedupe_s") 300
    refresh_interval_ms ← number_or cfg (codes "refresh_interval_s") 15
    watch_control_room ← bool_or cfg (codes "watch_control_room") false
    strict_local_events ← bool_or cfg (codes "strict_local_events") false
    dry_run ← bool_or cfg (codes "dry_run") false
    ok (record {
      static_rules = static_rules;
      control_room = control_room;
      uninvited_joins = uninvited_joins;
      notify_room = notify_room;
      notify_user = notify_user;
      notify_via = notify_via;
      notify_url = notify_url;
      notify_secret = notify_secret;
      notify_dedupe_ms = notify_dedupe_ms;
      refresh_interval_ms = refresh_interval_ms;
      watch_control_room = watch_control_room;
      strict_local_events = strict_local_events;
      dry_run = dry_run;
    })

  unfoldable pub parse : Value → Result ConfigError Config
  unfolding mapping_of parse_mapping
  parse value = do cfg ← mapping_of value; parse_mapping cfg
