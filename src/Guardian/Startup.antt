-- ===== src/Guardian/Startup.antt =====
-- `Guardian.__init__`: what the module sets up, and what it registers with Synapse.
pub mod Accepted
use synapse_guardian.Prelude.{
  ℕ, ◌≡◌, refl, inl, inr, Bool, true, false, ◌&&◌, List, [], ◌∷◌, ◌++◌, Option, none, some, arith,
  if◌then◌else◌, Text, codes, text_eq, any, is_given, Option-cases, Bool-cases,
}
use synapse_guardian.Unicode.{Unicode}
use synapse_guardian.Value.{Value, is_set}
use synapse_guardian.Prelude.Result.{ok}
use synapse_guardian.Config.{Config, Transport, bot, room}
use synapse_guardian.Config.Parse.{parse}
use synapse_guardian.Config.Valid.{IsThere, HasTransport, IsValid, parse-IsValid}
use synapse_guardian.Guardian.{Setup, Guardian, new_guardian, has_notifier, has_publisher}

pub data Notifier : Type 0 where
  room_notifier : Text → Text → ℕ → Notifier
  webhook_notifier : Text → Text → ℕ → Notifier

-- The notifier, the room and the user of the publisher, the names of the callbacks that are registered, and
-- the delay of the warm-up in milliseconds, if one is scheduled.
pub record Startup : Type 0 where
  pub notifier : Option Notifier
  pub publisher : Option (Text × Text)
  pub spam_checker : List Text
  pub third_party_rules : List Text
  pub warm_up_delay : Option ℕ
  pub guardian : Guardian

-- The notifier of each transport; `none` where an assertion fails.
unfoldable pub bot_notifier : Config → Option Notifier
bot_notifier config = elim config.notify_url [
  | none ↦ none
  | some url ↦ elim config.notify_secret [
    | none ↦ none
    | some secret ↦ some (webhook_notifier url secret config.notify_dedupe_ms)
  ]
]

unfoldable pub control_notifier : Config → Option Notifier
control_notifier config = elim config.control_room [
  | none ↦ none
  | some control_room ↦ elim config.notify_user [
    | none ↦ none
    | some user ↦ some (room_notifier control_room user config.notify_dedupe_ms)
  ]
]

unfoldable pub notifier_via : Transport → Config → Option Notifier
notifier_via bot config = bot_notifier config
notifier_via room config = control_notifier config

-- `_publisher`, of a process that is the main one or not
unfoldable pub publisher_of : Setup → Option (Text × Text)
publisher_of setup = elim setup.config.control_room [
  | none ↦ none
  | some control_room ↦ elim setup.config.notify_user [
    | none ↦ none
    | some user ↦ if setup.is_main then some (control_room, user) else none
  ]
]

abbrev pub spam_checker_callbacks : List Text
spam_checker_callbacks =
    codes "user_may_invite"
    ∷ codes "federated_user_may_invite"
    ∷ codes "user_may_send_3pid_invite"
    ∷ codes "user_may_join_room"
    ∷ codes "user_may_publish_room"
    ∷ codes "user_may_create_room"
    ∷ codes "user_may_create_room_alias"
    ∷ codes "user_may_send_state_event"
    ∷ []

abbrev pub watching_control_room : Config → Bool
watching_control_room config = is_given config.control_room && config.watch_control_room

abbrev pub callbacks_for : Bool → Bool → List Text
callbacks_for strict watching =
    (if strict then codes "check_event_allowed" ∷ [] else [])
    ++ (if watching then codes "on_new_event" ∷ [] else [])

unfoldable pub third_party_callbacks : Config → List Text
third_party_callbacks config =
    callbacks_for config.strict_local_events (watching_control_room config)

-- the delay of `delayed_background_call`
abbrev pub warm_up_delay_ms : ℕ
warm_up_delay_ms = 5000

abbrev pub delay_for : Option (Text × Text) → Option ℕ
delay_for none = none
delay_for (some publisher) = some warm_up_delay_ms

unfoldable pub started_with : Setup → Option Notifier → Startup
started_with setup notifier = record {
  notifier = notifier;
  publisher = publisher_of setup;
  spam_checker = spam_checker_callbacks;
  third_party_rules = third_party_callbacks setup.config;
  warm_up_delay = delay_for (publisher_of setup);
  guardian = new_guardian;
}

-- `__init__` with notices off and on
unfoldable pub startup_at : Bool → Setup → Option Startup
startup_at false setup = some (started_with setup none)
startup_at true setup = elim (notifier_via setup.config.notify_via setup.config) [
  | none ↦ none
  | some notifier ↦ some (started_with setup (some notifier))
]

-- `Guardian.__init__`; `none` where an assertion fails
unfoldable pub startup : Setup → Option Startup
startup setup = startup_at setup.config.notify_room setup
