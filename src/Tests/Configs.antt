-- ===== src/Tests/Configs.antt =====
-- config.py on a concrete configuration.
use synapse_guardian.Prelude.{◌≡◌, refl, false, [], ◌∷◌, Option, none, some, Text, codes}
use synapse_guardian.Prelude.Result.{ok}
use synapse_guardian.Unicode.{ascii}
use synapse_guardian.Tests.Opened.{policy_opened}
use synapse_guardian.Value.{
  Value, nil, cons, end, field, str, arr, obj, int, lookup, get, get_or, is_text,
}
use synapse_guardian.Value.Int.{pos}
use synapse_guardian.Policy.Kinds.{protected_user, blocked_user}
use synapse_guardian.Policy.Rules.{build}
use synapse_guardian.Config.{
  Config, known_rooms, room, all_texts, str_list, opt_str, bool_or, number_or, known_keys,
  unknown_of, config_entries, join_policy_of, transport_of,
}
use synapse_guardian.Config.Parse.{
  mapping_of, check_keys, check_control_room, check_transport, check_notify_user, static_rules_of,
  secret, parse_mapping, parse,
}

abbrev pub no_files : Text → Option Text
no_files path = none

abbrev pub home : Value
home = obj (
    field (codes "protected_users") (arr (cons (str (codes "@kid:h.org")) nil)) (
      field (codes "blocked_users") (arr (cons (str (codes "@spam*:good.org")) nil)) (
        field (codes "control_room") (str (codes "!c:h.org"))
          (field (codes "refresh_interval_s") (int (pos 20)) end))))

abbrev pub home_config : Config
home_config = record {
  static_rules =
      (build
        ((protected_user, codes "@kid:h.org") ∷ (blocked_user, codes "@spam*:good.org") ∷ [])).0;
  control_room = some (codes "!c:h.org");
  uninvited_joins = known_rooms;
  notify_room = false;
  notify_user = none;
  notify_via = room;
  notify_url = none;
  notify_secret = none;
  notify_dedupe_ms = 300000;
  refresh_interval_ms = 20000;
  watch_control_room = false;
  strict_local_events = false;
  dry_run = false;
}

pub home-parsed : parse no_files home ≡ ok home_config
unfolding policy_opened parse mapping_of parse_mapping check_keys check_control_room check_transport
    check_notify_user static_rules_of secret join_policy_of transport_of all_texts str_list opt_str
    bool_or number_or known_keys unknown_of config_entries lookup get get_or is_text
home-parsed = refl
