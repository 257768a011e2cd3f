-- ===== src/Guardian/Startup/Accepted.antt =====
-- A configuration that is accepted starts the module.
use synapse_guardian.Prelude.{
  ◌≡◌, ◌∙◌, sym, refl, inl, inr, Bool, true, false, Option, none, some, Text, codes, text_eq, any,
  is_given, Option-cases, Bool-cases,
}
use synapse_guardian.Prelude.Result.{ok}
use synapse_guardian.Unicode.{Unicode}
use synapse_guardian.Value.{Value, is_set}
use synapse_guardian.Config.{Config, Transport, bot, room}
use synapse_guardian.Config.Parse.{parse}
use synapse_guardian.Config.Valid.{IsThere, HasTransport, parse-IsValid}
use synapse_guardian.Guardian.{Setup, has_notifier, has_publisher}
use synapse_guardian.Guardian.Startup.{
  Notifier, room_notifier, webhook_notifier, Startup, bot_notifier, control_notifier, notifier_via,
  publisher_of, watching_control_room, callbacks_for, third_party_callbacks, delay_for,
  started_with, startup_at, startup,
}

set_is_there : (o : Option Text) → is_set o ≡ true → (s : Text) × (o ≡ some s)
set_is_there none h = absurd (cc)
set_is_there (some s) h = (s, refl)

there : (o : Option Text) → IsThere o → (s : Text) × (o ≡ some s)
there none h = absurd h
there (some s) h = (s, refl)

via_lem :
    (via : Transport) (config : Config)
    → HasTransport true via config.control_room config.notify_user config.notify_url
        config.notify_secret
    → (notifier : Notifier) × (notifier_via via config ≡ some notifier)
unfolding notifier_via bot_notifier control_notifier
via_lem room config (room_there, user_there) =
    let (control_room, e) = there config.control_room room_there in
    let (user, f) = there config.notify_user user_there in
    (room_notifier control_room user config.notify_dedupe_ms, rw (e, control_notifier, f) refl)
via_lem bot config (url_set, secret_set) =
    let (url, e) = set_is_there config.notify_url url_set in
    let (secret, f) = set_is_there config.notify_secret secret_set in
    (webhook_notifier url secret config.notify_dedupe_ms, rw (e, bot_notifier, f) refl)

publisher_lem : (setup : Setup) → is_given (publisher_of setup) ≡ has_publisher setup
unfolding publisher_of
publisher_lem setup = elim (Option-cases setup.config.control_room) [
  | inl no_room ↦ rw (no_room, publisher_of) refl
  | inr (control_room, e) ↦ elim (Option-cases setup.config.notify_user) [
    | inl no_user ↦ rw (e, no_user, publisher_of) refl
    | inr (user, f) ↦ elim (Bool-cases setup.is_main) [
      | inl main ↦ rw (e, f, main, publisher_of) refl
      | inr worker ↦ rw (e, f, worker, publisher_of) refl
    ]
  ]
]

delay_lem : (publisher : Option (Text × Text)) → is_given (delay_for publisher) ≡ is_given publisher
delay_lem none = refl
delay_lem (some publisher) = refl

callbacks_lem :
    (strict watching : Bool)
    → (any (text_eq (codes "check_event_allowed")) (callbacks_for strict watching) ≡ strict)
      × (any (text_eq (codes "on_new_event")) (callbacks_for strict watching) ≡ watching)
unfolding any text_eq
callbacks_lem true true = (refl, refl)
callbacks_lem true false = (refl, refl)
callbacks_lem false true = (refl, refl)
callbacks_lem false false = (refl, refl)

-- What is set up is what the callbacks count on: a notifier and a publisher where the configuration has
-- them, a warm-up where there is a publisher, and the costly callbacks only where they are wanted.
pub AgreesWith : Setup → Startup → Type 0
AgreesWith setup started =
    (is_given started.notifier ≡ has_notifier setup)
    × (is_given started.publisher ≡ has_publisher setup)
    × (is_given started.warm_up_delay ≡ has_publisher setup)
    × (any (text_eq (codes "check_event_allowed")) started.third_party_rules
        ≡ setup.config.strict_local_events)
    × (any (text_eq (codes "on_new_event")) started.third_party_rules
        ≡ watching_control_room setup.config)

started-AgreesWith :
    (setup : Setup) (notifier : Option Notifier)
    → is_given notifier ≡ has_notifier setup
    → AgreesWith setup (started_with setup notifier)
unfolding AgreesWith started_with third_party_callbacks
started-AgreesWith setup notifier given =
    let config = setup.config in
    let (strict, watching) =
      callbacks_lem config.strict_local_events (watching_control_room config) in
    (
      given,
      publisher_lem setup,
      delay_lem (publisher_of setup) ∙ publisher_lem setup,
      strict,
      watching,
    )

starts :
    (setup : Setup) (on : Bool)
    → setup.config.notify_room ≡ on
    → HasTransport on setup.config.notify_via setup.config.control_room setup.config.notify_user
        setup.config.notify_url setup.config.notify_secret
    → (started : Startup) × (startup_at on setup ≡ some started) × AgreesWith setup started
unfolding startup_at
starts setup false off transport =
    (started_with setup none, refl, started-AgreesWith setup none (sym off))
starts setup true is_on transport =
    let (notifier, found) = via_lem setup.config.notify_via setup.config transport in
    (
      started_with setup (some notifier),
      rw (found, startup_at) refl,
      started-AgreesWith setup (some notifier) (sym is_on),
    )

module _ ⦃u : Unicode⦄ where
  -- With a configuration that `parse` accepts the module starts: no assertion of `__init__` fails, in any
  -- process, and what is set up agrees with the configuration.
  pub accepted_config_starts :
      (read_file : Text → Option Text) (value : Value) (config : Config) (is_main : Bool)
      → parse read_file value ≡ ok config
      → (started : Startup) × (startup (record { config = config; is_main = is_main })
          ≡ some started)
        × AgreesWith (record { config = config; is_main = is_main }) started
  unfolding startup
  accepted_config_starts read_file value config is_main parsed =
      let valid = parse-IsValid read_file value config parsed in
      starts (record { config = config; is_main = is_main }) config.notify_room refl
        valid.transport_valid
