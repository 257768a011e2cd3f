-- ===== src/Guardian/Background/Told.antt =====
-- A refusal on its way to the room.
use synapse_guardian.Prelude.Steps.{continue}
use synapse_guardian.Prelude.{
  ◌≡◌, refl, sym, ap, subst, true, [], ◌∷◌, ◌++◌, Option, some, Text, if◌then◌else◌,
}
use synapse_guardian.Prelude.Result.{Result, ok, err}
use synapse_guardian.Unicode.{Unicode}
use synapse_guardian.Notify.Throttle.{should_send}
use synapse_guardian.Notify.Transports.{Notice, key_of, text_of, notify}
use synapse_guardian.Guardian.{
  World, Setup, Guardian, Raised, raised, Verdict, Exec, pure, Task, has_notifier, block,
  block_verdict, start,
}
use synapse_guardian.Guardian.Startup.{Notifier, Startup}
use synapse_guardian.Guardian.Background.{
  Meeting, Background, message_via, dedupe_of, run_notify, run_task,
}

module _ (notifier : Notifier) (meeting : Meeting) (notice : Notice) (b : Background) where
  -- what the process of a notice does to the transport
  notified :
      (should_send (dedupe_of notifier) meeting.now (key_of notice) b.throttle).0 ≡ true
      → (run_notify (some notifier) meeting notice b).outbox
        ≡ message_via notifier meeting (text_of notice) b.outbox
  unfolding run_notify notify
  notified sends = rw sends refl

module _ ⦃u : Unicode⦄ (setup : Setup) (world : World) where
  started_lem :
      (task : Task) (g : Guardian)
      → world.can_start ≡ true
      → start setup world task g ≡ (ok tt, record g { tasks = g.tasks ++ task ∷ [] })
  unfolding start
  started_lem task g can =
      let fine : Result Raised (Unit {0}) × Guardian =
        (ok tt, record g { tasks = g.tasks ++ task ∷ [] }) in
      let fails : Result Raised (Unit {0}) × Guardian = (err raised, g) in
      subst (λ flag. (if flag then fine else fails) ≡ fine) (sym can) refl

  block_on :
      (kind actor target : Text) (room_id : Option Text) (rule : Text) (g : Guardian)
      → has_notifier setup ≡ true
      → world.can_start ≡ true
      → block setup world kind actor target room_id rule g ≡ (
        ok (block_verdict setup),
        record g {
          tasks = g.tasks ++ Task.notify kind actor target room_id rule setup.config.dry_run ∷ [];
        },
      )
  unfolding block
  block_on kind actor target room_id rule g on can =
      let task = Task.notify kind actor target room_id rule setup.config.dry_run in
      let verdict : Unit {0} → Exec Verdict = λ t. pure (block_verdict setup) in
      let told : Result Raised Verdict × Guardian =
        (ok (block_verdict setup), record g { tasks = g.tasks ++ task ∷ [] }) in
      let untold : Result Raised Verdict × Guardian = (ok (block_verdict setup), g) in
      subst (λ flag. (if flag then continue (start setup world task g) verdict else untold) ≡ told)
        (sym on) (rw (started_lem task g can) refl)

  -- Where notices are on and processes can be started, a refusal gives the verdict of the configuration and
  -- starts one process; that process hands the text of the refusal to the transport, unless the throttle
  -- holds it back.
  pub refusal_is_told :
      (kind actor target : Text) (room_id : Option Text) (rule : Text) (g : Guardian)
      (started : Startup) (notifier : Notifier) (meeting : Meeting) (b : Background)
      → has_notifier setup ≡ true
      → world.can_start ≡ true
      → started.notifier ≡ some notifier
      → let r = block setup world kind actor target room_id rule g in
        let notice : Notice = record {
          kind = kind;
          actor = actor;
          target = target;
          room_id = room_id;
          rule = rule;
          dry_run = setup.config.dry_run;
        } in
        (r.0 ≡ ok (block_verdict setup))
        × ((task : Task) × (r.1.tasks ≡ g.tasks ++ task ∷ [])
            × ((should_send (dedupe_of notifier) meeting.now (key_of notice) b.throttle).0 ≡ true
                → (run_task started meeting task b).outbox
                  ≡ message_via notifier meeting (text_of notice) b.outbox))
  unfolding block start run_task
  refusal_is_told kind actor target room_id rule g started notifier meeting b on can is_set =
      let task = Task.notify kind actor target room_id rule setup.config.dry_run in
      let notice : Notice = record {
        kind = kind;
        actor = actor;
        target = target;
        room_id = room_id;
        rule = rule;
        dry_run = setup.config.dry_run;
      } in
      let blocked = block_on kind actor target room_id rule g on can in
      (
        ap (λ (x : Result Raised Verdict × Guardian). x.0) blocked,
        (
          task,
          ap (λ (x : Result Raised Verdict × Guardian). x.1.tasks) blocked,
          λ sends.
              subst
                (λ n.
                  (run_notify n meeting notice b).outbox
                  ≡ message_via notifier meeting (text_of notice) b.outbox)
                (sym is_set) (notified notifier meeting notice b sends),
        ),
      )
