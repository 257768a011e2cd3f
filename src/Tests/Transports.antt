-- ===== src/Tests/Transports.antt =====
-- The start of the module, and its notices on their way to the plugin.
use synapse_guardian.Prelude.{
  ℕ, ◌≡◌, refl, true, false, none, some, List, [], ◌∷◌, Text, codes, all, ◌+◌, ◌≤◌, arith,
}
use synapse_guardian.Prelude.Result.{Result, ok}
use synapse_guardian.Unicode.{ascii}
use synapse_guardian.Value.{Value, str, obj, field, end}
use synapse_guardian.Config.{Config}
use synapse_guardian.Guardian.{Setup, Task}
use synapse_guardian.Guardian.Background.{Meeting, new_background, run_tasks}
use synapse_guardian.Guardian.Background.Flood.{handed, background_flood-le}
use synapse_guardian.Guardian.Startup.{Notifier, room_notifier, Startup, started_with, startup}
use synapse_guardian.Guardian.Startup.Accepted.{AgreesWith, accepted_config_starts}
use synapse_guardian.Notify.Transports.{Notice, text_of, post_of}
use synapse_guardian.Bot.Webhook.{LoadError, parse_notify_request, notify_max_body}
use synapse_guardian.Bot.Webhook.Delivery.{notice_is_accepted}
use synapse_guardian.Tests.Configs.{no_files, home, home_config, home-parsed}

accepted_config_starts_example :
    (started : Startup) × (startup (record { config = home_config; is_main = true }) ≡ some started)
    × AgreesWith (record { config = home_config; is_main = true }) started
accepted_config_starts_example = accepted_config_starts no_files home home_config true home-parsed

abbrev url : Text
url = codes "http://bot/notify"

abbrev secret : Text
secret = codes "s3"

abbrev refused : Text
refused = codes "ConnectionRefusedError"

abbrev failures : List (Text × Text)
failures =
    (refused, codes "one") ∷ (codes "TimeoutError", codes "two") ∷ (refused, codes "three") ∷ []

abbrev notice : Notice
notice = record {
  kind = codes "invite";
  actor = codes "@ann:a.org";
  target = codes "@kid:h.org";
  room_id = none;
  rule = codes "default-deny";
  dry_run = false;
}

abbrev dumps : Value → List ℕ
dumps v = codes "the notice"

abbrev loads : List ℕ → Result LoadError Value
loads body = ok (obj (field (codes "text") (str (text_of notice)) end))

notice_is_accepted_example :
    parse_notify_request loads
      (some (post_of url secret (text_of notice)).authorization)
      (dumps (post_of url secret (text_of notice)).payload)
      (some secret)
      notify_max_body
    ≡ ok (200, some (text_of notice))
unfolding all post_of
notice_is_accepted_example =
    notice_is_accepted loads dumps url secret notice refl refl refl refl refl

abbrev told_config : Config
told_config = record home_config { notify_room = true; notify_user = some (codes "@bot:h.org") }

abbrev told_setup : Setup
told_setup = record { config = told_config; is_main = true }

abbrev by_room : Notifier
by_room = room_notifier (codes "!c:h.org") (codes "@bot:h.org") 300000

abbrev told_startup : Startup
told_startup = started_with told_setup (some by_room)

abbrev fine : Meeting
fine = record {
  now = 3;
  post_raises = false;
  request_raises = none;
  room = record { state = none; can_send = true };
  leave_raises = false;
}

abbrev told : Task
told = Task.notify notice.kind notice.actor notice.target notice.room_id notice.rule notice.dry_run

abbrev processes : List (Meeting × Task)
processes =
    (fine, told)
    ∷ (fine, Task.reject_invite (codes "@kid:h.org") (codes "!r:h.org") (codes "@ann:a.org"))
    ∷ (record fine { now = 4 }, told)
    ∷ []

background_flood-le_example :
    handed (run_tasks told_startup processes new_background).outbox
    ≤ handed new_background.outbox + 40
unfolding started_with
background_flood-le_example =
    background_flood-le told_startup by_room refl 3 processes new_background (
      (refl, omega arith, omega arith),
      ((refl, omega arith, omega arith), ((refl, omega arith, omega arith), tt)),
    )
