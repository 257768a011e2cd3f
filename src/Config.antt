-- ===== src/Config.antt =====
-- synapse_guardian/config.py: parsing and validating the module's part of homeserver.yaml.
-- Numbers of seconds are kept in milliseconds. Reading a file is a parameter.
pub mod Parse
pub mod Valid
use synapse_guardian.Prelude.{
  ℕ, ◌+◌, ◌*◌, ◌≡◌, Bool, true, false, not, ◌&&◌, ◌||◌, List, [], ◌∷◌, ◌++◌, map, Option, none,
  some, if◌then◌else◌, Text, codes, text_eq, starts_with, is_empty, any,
}
use synapse_guardian.Prelude.Result.{Result, ok, err, ◌>>=◌, ◌>>◌}
use synapse_guardian.Unicode.{Unicode}
use synapse_guardian.Value.Int.{ℤ, pos, negsuc}
use synapse_guardian.Value.{
  Value, null, bool, int, float, str, arr, obj, other, Items, nil, cons, Fields, end, field, lookup,
  get, get_or, is_text, is_set, strip,
}
use synapse_guardian.Policy.Kinds.{Kind, plural, all_kinds}
use synapse_guardian.Policy.Patterns.{is_user_id}
use synapse_guardian.Policy.Rules.{RuleSet, Report, Entry, build_strict}

-- UNINVITED_JOIN_POLICIES
pub data JoinPolicy : Type 0 where
  deny known_rooms : JoinPolicy

-- NOTIFY_TRANSPORTS
pub data Transport : Type 0 where
  room bot : Transport

-- The messages of `ConfigError`, with the key at fault.
pub data ConfigError : Type 0 where
  not_a_list not_a_string not_a_boolean not_a_number : Text → ConfigError
  both_set unreadable empty_file : Text → ConfigError
  not_a_mapping trusted_senders_removed : ConfigError
  unknown_keys : List Text → ConfigError
  invalid_rule : Report → ConfigError
  not_a_room_id bad_join_policy not_a_notify_user bad_transport : ConfigError
  needs_control_room needs_notify_user needs_notify_url needs_notify_secret : ConfigError

-- all(isinstance(v, str) for v in value), with the texts
unfoldable pub all_texts : Items → Option (List Text)
all_texts nil = some []
all_texts (cons (str s) xs) = elim (all_texts xs) [ none ↦ none | some ss ↦ some (s ∷ ss) ]
all_texts (cons _ xs) = none

str_list_of : Text → Value → Result ConfigError (List Text)
str_list_of key null = ok []
str_list_of key (arr xs) = elim (all_texts xs) [ none ↦ err (not_a_list key) | some ss ↦ ok ss ]
str_list_of key _ = err (not_a_list key)

-- _str_list
unfoldable pub str_list : Fields → Text → Result ConfigError (List Text)
unfolding str_list_of
str_list cfg key = str_list_of key (get_or key (arr nil) cfg)

opt_str_of : Text → Value → Result ConfigError (Option Text)
opt_str_of key null = ok none
opt_str_of key (str s) = ok (some s)
opt_str_of key _ = err (not_a_string key)

-- _opt_str
unfoldable pub opt_str : Fields → Text → Result ConfigError (Option Text)
unfolding opt_str_of
opt_str cfg key = opt_str_of key (get key cfg)

-- value or None
abbrev pub set_or_none : Option Text → Option Text
set_or_none none = none
set_or_none (some s) = if is_empty s then none else some s

bool_of : Text → Value → Result ConfigError Bool
bool_of key (bool b) = ok b
bool_of key _ = err (not_a_boolean key)

-- _bool
unfoldable pub bool_or : Fields → Text → Bool → Result ConfigError Bool
unfolding bool_of
bool_or cfg key default = bool_of key (get_or key (bool default) cfg)

number_of : Text → Value → Result ConfigError ℕ
number_of key (int (pos n)) = ok (n * 1000)
number_of key (float (pos n)) = ok n
number_of key _ = err (not_a_number key)

-- _number
unfoldable pub number_or : Fields → Text → ℕ → Result ConfigError ℕ
unfolding number_of
number_or cfg key default = number_of key (get_or key (int (pos default)) cfg)

unfoldable pub join_policy_of : Value → Result ConfigError JoinPolicy
join_policy_of v =
    if is_text (codes "deny") v
    then ok deny
    else if is_text (codes "known_rooms") v
    then ok known_rooms
    else err bad_join_policy

unfoldable pub transport_of : Value → Result ConfigError Transport
transport_of v =
    if is_text (codes "room") v
    then ok room
    else if is_text (codes "bot") v
    then ok bot
    else err bad_transport

pub record Config : Type 0 where
  pub static_rules : RuleSet
  pub control_room : Option Text
  pub uninvited_joins : JoinPolicy
  pub notify_room : Bool
  pub notify_user : Option Text
  pub notify_via : Transport
  pub notify_url : Option Text
  pub notify_secret : Option Text
  pub notify_dedupe_ms : ℕ
  pub refresh_interval_ms : ℕ
  pub watch_control_room : Bool
  pub strict_local_events : Bool
  pub dry_run : Bool

other_keys : List Text
other_keys =
    codes "control_room"
    ∷ codes "uninvited_joins"
    ∷ codes "notify_room"
    ∷ codes "notify_user"
    ∷ codes "notify_via"
    ∷ codes "notify_url"
    ∷ codes "notify_secret"
    ∷ codes "notify_secret_path"
    ∷ codes "notify_dedupe_s"
    ∷ codes "refresh_interval_s"
    ∷ codes "watch_control_room"
    ∷ codes "strict_local_events"
    ∷ codes "dry_run"
    ∷ []

unfoldable pub known_keys : List Text
unfolding other_keys all_kinds plural
known_keys = map plural all_kinds ++ other_keys

-- set(cfg) - known
unfoldable pub unknown_of : Fields → List Text
unknown_of end = []
unknown_of (field k v rest) =
    let others = unknown_of rest in if any (text_eq k) known_keys then others else k ∷ others

-- the list comprehension over ALL_KINDS
unfoldable pub config_entries : Fields → List Kind → Result ConfigError (List Entry)
config_entries cfg [] = ok []
config_entries cfg (kind ∷ kinds) = do
  patterns ← str_list cfg (plural kind)
  entries ← config_entries cfg kinds
  ok (map (λ p. (kind, p)) patterns ++ entries)
