-- ===== src/Guardian/Background/Flood.antt =====
-- How many notices the background processes hand to a transport.
use synapse_guardian.Prelude.{
  ℕ, suc, ◌+◌, ◌≤◌, ◌<◌, ◌≡◌, refl, sym, subst, inl, inr, Bool, true, false, List, [], ◌∷◌, ◌++◌,
  Option, none, some, arith, Text, if◌then◌else◌, length, All, Bool-cases,
}
use synapse_guardian.Value.{Value}
use synapse_guardian.TextSet.{member}
use synapse_guardian.Notify.Throttle.{Throttle, Sent, Call, should_send, run}
use synapse_guardian.Notify.Throttle.Capacity.{flood-le}
use synapse_guardian.Notify.Transports.{
  Notice, key_of, text_of, notify, room_message, Webhook, warn_once, webhook_message,
}
use synapse_guardian.Guardian.{Task}
use synapse_guardian.Guardian.Startup.{Notifier, room_notifier, webhook_notifier, Startup}
use synapse_guardian.Guardian.Background.{
  Meeting, Outbox, Background, message_via, dedupe_of, run_notify, run_rejection, run_task,
  run_tasks,
}

-- the notices in the room, and the requests that were made to the plugin
abbrev pub handed : Outbox → ℕ
handed outbox = length outbox.events + length outbox.webhook.posts

abbrev pub is_warning : Task → Bool
is_warning (Task.warn_admin user_id) = true
is_warning _ = false

-- the calls of the throttle by some processes
calls_of : List (Meeting × Task) → List Call
calls_of [] = []
calls_of ((meeting, Task.notify kind actor target room_id rule dry_run) ∷ tasks) =
    record { key = record { kind = kind; actor = actor; target = target }; now = meeting.now }
    ∷ calls_of tasks
calls_of ((meeting, Task.warn_admin user_id) ∷ tasks) = calls_of tasks
calls_of ((meeting, Task.publish static rules dry_run policy) ∷ tasks) = calls_of tasks
calls_of ((meeting, Task.reject_invite user_id room_id inviter) ∷ tasks) = calls_of tasks

length_more : {A : Type 0} (xs : List A) (x : A) → length (xs ++ x ∷ []) ≡ suc (length xs)
length_more [] x = refl
length_more (y ∷ xs) x = omega (arith, length_more xs x)

warn_once-posts : (key : Text) (w : Webhook) → (warn_once key w).posts ≡ w.posts
unfolding warn_once
warn_once-posts key w = elim (Bool-cases (member key w.warned)) [
  | inl known ↦ rw known refl
  | inr new ↦ rw new refl
]

posts_more :
    (url secret : Text) (raised : Option Text) (text : Text) (w : Webhook)
    → length (webhook_message url secret raised text w).posts ≡ suc (length w.posts)
unfolding webhook_message
posts_more url secret none text w = length_more w.posts _
posts_more url secret (some key) text w = rw (warn_once-posts key _) (length_more w.posts _)

events_more :
    (room_id user : Text) (raises : Bool) (text : Text) (events : List Value)
    → length (room_message room_id user raises text events) ≤ suc (length events)
unfolding room_message
events_more room_id user true text events = omega arith
events_more room_id user false text events = omega (arith, length_more events _)

message_more :
    (notifier : Notifier) (meeting : Meeting) (text : Text) (outbox : Outbox)
    → handed (message_via notifier meeting text outbox) ≤ suc (handed outbox)
unfolding message_via
message_more (room_notifier room_id user dedupe) meeting text outbox =
    omega (arith, events_more room_id user meeting.post_raises text outbox.events)
message_more (webhook_notifier url secret dedupe) meeting text outbox =
    omega (arith, posts_more url secret meeting.request_raises text outbox.webhook)

-- the lists of what is sent, of the first call and of all
first_count :
    (sends : Bool) (first : Sent) (later : List Sent)
    → length (if sends then first ∷ later else later) ≡ (if sends then 1 else 0) + length later
first_count true first later = omega arith
first_count false first later = omega arith

module _ (notifier : Notifier) (meeting : Meeting) (notice : Notice) (b : Background) where
  abbrev asked : Bool × Throttle
  asked = should_send (dedupe_of notifier) meeting.now (key_of notice) b.throttle

  notify_throttle : (run_notify (some notifier) meeting notice b).throttle ≡ asked.1
  unfolding run_notify notify
  notify_throttle = refl

  notify_handed :
      handed (run_notify (some notifier) meeting notice b).outbox
      ≤ handed b.outbox + (if asked.0 then 1 else 0)
  unfolding run_notify notify
  notify_handed = elim (Bool-cases asked.0) [
    | inl sends ↦ rw sends (omega (arith, message_more notifier meeting (text_of notice) b.outbox))
    | inr holds ↦ rw holds (omega arith)
  ]

module _ (started : Startup) (notifier : Notifier) (is_set : started.notifier ≡ some notifier) where
  tasks_le :
      (tasks : List (Meeting × Task)) (b : Background)
      → All (λ t. is_warning t.1 ≡ false) tasks
      → handed (run_tasks started tasks b).outbox
        ≤ handed b.outbox + length (run (dedupe_of notifier) (calls_of tasks) b.throttle).0
  unfolding run_tasks run_task run calls_of run_rejection
  tasks_le [] b quiet = omega arith
  tasks_le ((meeting, Task.notify kind actor target room_id rule dry_run) ∷ tasks) b (q, quiet) =
      let notice : Notice = record {
        kind = kind;
        actor = actor;
        target = target;
        room_id = room_id;
        rule = rule;
        dry_run = dry_run;
      } in
      let after = run_notify (some notifier) meeting notice b in
      let ih : handed (run_tasks started tasks after).outbox
          ≤ handed after.outbox
            + length
                (run (dedupe_of notifier) (calls_of tasks) (asked notifier meeting notice b).1).0 =
        subst
          (λ s.
            handed (run_tasks started tasks after).outbox
            ≤ handed after.outbox + length (run (dedupe_of notifier) (calls_of tasks) s).0)
          (notify_throttle notifier meeting notice b) (tasks_le tasks after quiet) in
      let later =
        (run (dedupe_of notifier) (calls_of tasks) (asked notifier meeting notice b).1).0 in
      let calls =
        calls_of ((meeting, Task.notify kind actor target room_id rule dry_run) ∷ tasks) in
      let all_sent = (run (dedupe_of notifier) calls b.throttle).0 in
      let count : length all_sent
          ≡ (if (asked notifier meeting notice b).0 then 1 else 0) + length later =
        first_count (asked notifier meeting notice b).0
          (record { key = key_of notice; at = meeting.now }) later in
      let bound : handed (run_tasks started tasks after).outbox
          ≤ handed b.outbox + length all_sent =
        omega (arith, ih, notify_handed notifier meeting notice b, count) in
      subst
        (λ n.
          handed (run_tasks started tasks (run_notify n meeting notice b)).outbox
          ≤ handed b.outbox + length all_sent)
        (sym is_set) bound
  tasks_le ((meeting, Task.warn_admin user_id) ∷ tasks) b (q, quiet) = absurd (cc)
  tasks_le ((meeting, Task.publish static rules dry_run policy) ∷ tasks) b (q, quiet) =
      tasks_le tasks (run_task started meeting (Task.publish static rules dry_run policy) b) quiet
  tasks_le ((meeting, Task.reject_invite user_id room_id inviter) ∷ tasks) b (q, quiet) =
      elim (Bool-cases meeting.leave_raises) [
        | inl raises ↦ rw raises (tasks_le tasks b quiet)
        | inr leaves ↦
            rw leaves (tasks_le tasks (record b { left = b.left ++ (user_id, room_id) ∷ [] }) quiet)
      ]

  -- a process that is no warning of an admin, within an interval of the throttle
  abbrev pub RunsWithin : ℕ → Meeting × Task → Type 0
  RunsWithin from (meeting, task) =
      (is_warning task ≡ false) × (from ≤ meeting.now) × (meeting.now < from + dedupe_of notifier)

  calls-within :
      (from : ℕ) (tasks : List (Meeting × Task))
      → All (RunsWithin from) tasks
      → All (λ t. is_warning t.1 ≡ false) tasks
        × All (λ (c : Call). (from ≤ c.now) × (c.now < from + dedupe_of notifier)) (calls_of tasks)
  unfolding calls_of
  calls-within from [] h = (tt, tt)
  calls-within from ((meeting, Task.notify kind actor target room_id rule dry_run) ∷ tasks)
        ((q, since, until), h) =
      let (quiet, within) = calls-within from tasks h in ((q, quiet), ((since, until), within))
  calls-within from ((meeting, Task.warn_admin user_id) ∷ tasks) ((q, since, until), h) =
      absurd (cc)
  calls-within from ((meeting, Task.publish static rules dry_run policy) ∷ tasks)
        ((q, since, until), h) =
      let (quiet, within) = calls-within from tasks h in ((q, quiet), within)
  calls-within from ((meeting, Task.reject_invite user_id room_id inviter) ∷ tasks)
        ((q, since, until), h) =
      let (quiet, within) = calls-within from tasks h in ((q, quiet), within)

  -- However many background processes run within one interval of the throttle, notices of refusals among
  -- them, and from whatever state, at most 40 notices reach the transport: as events in the control room,
  -- or as requests to the plugin. Warnings of an admin, which pass by the throttle, are not among them.
  pub background_flood-le :
      (from : ℕ) (tasks : List (Meeting × Task)) (b : Background)
      → All (RunsWithin from) tasks
      → handed (run_tasks started tasks b).outbox ≤ handed b.outbox + 40
  background_flood-le from tasks b h =
      let (quiet, within) = calls-within from tasks h in
      omega (
        arith,
        tasks_le tasks b quiet,
        flood-le (dedupe_of notifier) from (calls_of tasks) b.throttle within,
      )
