-- ===== src/Guardian/Background.antt =====
-- The background processes that the callbacks start: notices, the warning of an admin, publishing, and the
-- rejection of a stale invite.
pub mod Told
pub mod Flood
use synapse_guardian.Prelude.{
  ℕ, Bool, true, false, List, [], ◌∷◌, ◌++◌, Option, none, some, if◌then◌else◌, Text, codes,
}
use synapse_guardian.Value.{Value}
use synapse_guardian.Notify.Throttle.{Throttle, start}
use synapse_guardian.Notify.Transports.{
  Notice, notify, room_message, Webhook, new_webhook, webhook_message,
}
use synapse_guardian.Publish.{Room, Publisher, new_publisher, publish}
use synapse_guardian.Guardian.{Task}
use synapse_guardian.Guardian.Startup.{Notifier, room_notifier, webhook_notifier, Startup}

-- What a process meets: the clock, whether posting to the room raises, what the webhook's request raises,
-- the room of the publisher, and whether the change of a membership raises.
pub record Meeting : Type 0 where
  pub now : ℕ
  pub post_raises : Bool
  pub request_raises : Option Text
  pub room : Room
  pub leave_raises : Bool

-- the two transports, of which a module uses at most one
pub record Outbox : Type 0 where
  pub events : List Value
  pub webhook : Webhook

-- What the processes have come to: the throttle, the notices, the publisher and what it has sent, and the
-- users that were made to leave a room.
pub record Background : Type 0 where
  pub throttle : Throttle
  pub outbox : Outbox
  pub publisher : Publisher
  pub sent : List Value
  pub left : List (Text × Text)

abbrev pub new_background : Background
new_background = record {
  throttle = start;
  outbox = record { events = []; webhook = new_webhook };
  publisher = new_publisher;
  sent = [];
  left = [];
}

-- `_notifier.message`
unfoldable pub message_via : Notifier → Meeting → Text → Outbox → Outbox
message_via (room_notifier room_id user dedupe) meeting text outbox = record outbox {
  events = room_message room_id user meeting.post_raises text outbox.events;
}
message_via (webhook_notifier url secret dedupe) meeting text outbox = record outbox {
  webhook = webhook_message url secret meeting.request_raises text outbox.webhook;
}

abbrev pub dedupe_of : Notifier → ℕ
dedupe_of (room_notifier room_id user dedupe) = dedupe
dedupe_of (webhook_notifier url secret dedupe) = dedupe

-- the text of `_on_admin_protected`
unfoldable pub admin_warning : Text → Text
admin_warning user_id =
    codes "guardian: WARNING protected user "
    ++ (user_id
        ++ codes
            " is a server admin; Synapse skips invite/join checks for admins, so this user is NOT protected")

unfoldable pub run_notify : Option Notifier → Meeting → Notice → Background → Background
run_notify none meeting notice b = b
run_notify (some notifier) meeting notice b =
    let (throttle', outbox') =
      notify (message_via notifier meeting) (dedupe_of notifier) meeting.now notice
        (b.throttle, b.outbox) in
    record b { throttle = throttle'; outbox = outbox' }

unfoldable pub run_warning : Option Notifier → Meeting → Text → Background → Background
run_warning none meeting user_id b = b
run_warning (some notifier) meeting user_id b = record b {
  outbox = message_via notifier meeting (admin_warning user_id) b.outbox;
}

-- `_reject_invite`
unfoldable pub run_rejection : Meeting → Text → Text → Background → Background
run_rejection meeting user_id room_id b =
    if meeting.leave_raises then b else record b { left = b.left ++ (user_id, room_id) ∷ [] }

-- one process, of a module that was set up in this way
unfoldable pub run_task : Startup → Meeting → Task → Background → Background
run_task started meeting (Task.notify kind actor target room_id rule dry_run) b =
    run_notify started.notifier meeting
      (record {
        kind = kind;
        actor = actor;
        target = target;
        room_id = room_id;
        rule = rule;
        dry_run = dry_run;
      })
      b
run_task started meeting (Task.warn_admin user_id) b =
    run_warning started.notifier meeting user_id b
run_task started meeting (Task.publish static rules dry_run policy) b =
    let (worked, publisher', contents) =
      publish meeting.room static rules dry_run policy b.publisher in
    record b { publisher = publisher'; sent = b.sent ++ contents }
run_task started meeting (Task.reject_invite user_id room_id inviter) b =
    run_rejection meeting user_id room_id b

-- processes that run one after another, each with what it meets
unfoldable pub run_tasks : Startup → List (Meeting × Task) → Background → Background
run_tasks started [] b = b
run_tasks started ((meeting, task) ∷ tasks) b =
    run_tasks started tasks (run_task started meeting task b)
