-- ===== src/Tests/Notices.antt =====
-- notify.py on concrete blocks and calls.
use synapse_guardian.Prelude.{
  ◌≡◌, ◌≤◌, refl, false, List, [], ◌∷◌, none, arith, codes, length, any, keep, text_eq,
}
use synapse_guardian.Notify.{format_block}
use synapse_guardian.Notify.Safety.{IsSafe, format_block-IsSafe}
use synapse_guardian.Notify.Throttle.{
  Key, Call, start, run, should_send, key_eq, is_recent, is_live, remember,
}
use synapse_guardian.Notify.Throttle.Bounds.{start-IsBounded}
use synapse_guardian.Notify.Throttle.Capacity.{flood-le}
use synapse_guardian.Notify.Throttle.Spacing.{Spaced, run-Spaced}

abbrev ann : Key
ann = record { kind = codes "invite"; actor = codes "@ann:a.org"; target = codes "@kid:h.org" }

abbrev bob : Key
bob = record { kind = codes "invite"; actor = codes "@bob:b.org"; target = codes "@kid:h.org" }

abbrev calls : List Call
calls =
    record { key = ann; now = 1000 }
    ∷ record { key = ann; now = 1100 }
    ∷ record { key = bob; now = 1200 }
    ∷ record { key = ann; now = 1299 }
    ∷ []

second_call_is_silent :
    (run 300 calls start).0 ≡ record { key = ann; at = 1000 } ∷ record { key = bob; at = 1200 } ∷ []
unfolding run should_send remember is_recent is_live key_eq text_eq any keep
second_call_is_silent = refl

format_block-IsSafe_example : IsSafe (
    format_block
      (codes "invite")
      (codes "@a\n:b")
      (codes "@kid:h.org")
      none
      (codes "no-rule")
      false)
format_block-IsSafe_example =
    format_block-IsSafe (codes "invite") (codes "@a\n:b") (codes "@kid:h.org") none
      (codes "no-rule") false

flood-le_example : length (run 300 calls start).0 ≤ 40
flood-le_example = flood-le 300 1000 calls start (
  (omega arith, omega arith),
  ((omega arith, omega arith), ((omega arith, omega arith), ((omega arith, omega arith), tt))),
)

run-Spaced_example : Spaced 300 (run 300 calls start).0
run-Spaced_example =
    run-Spaced 300 calls 0 start (omega arith, (omega arith, (omega arith, (omega arith, tt))))
      (start-IsBounded 300 0)
