-- ===== src/Notify/Throttle/Spacing.antt =====
-- Two notices of one key are never closer than the interval.
use synapse_guardian.Prelude.{
  ℕ, ◌+◌, ◌≡◌, ◌≤◌, sym, ◌∙◌, inl, inr, true, List, [], ◌∷◌, arith, leb, ltb, Bool-cases, length,
  All, false≢true,
}
use native.Mathlib.Nat.{le_refl}
use synapse_guardian.Notify.Throttle.{
  Key, Sent, Throttle, Call, key_eq, is_recent, prune, roll, admit, should_send, run, max_notices,
}
use synapse_guardian.Notify.Throttle.Bounds.{
  IsBounded, prune-IsBounded, roll-IsBounded, keep-AllLive,
}
use synapse_guardian.Notify.Throttle.Capacity.{
  remember_lem, should_send-IsBounded, length-recent-le,
}
use synapse_guardian.Notify.Throttle.Held.{holds, holds_last, held_step}

module _ (dedupe : ℕ) where
  -- times do not go back
  abbrev pub IsMonotone : ℕ → List Call → Type 0
  IsMonotone now [] = Unit
  IsMonotone now (c ∷ calls) = (now ≤ c.now) × IsMonotone c.now calls

  -- a notice of this key is only sent when the interval is over
  abbrev pub After : Key → ℕ → Sent → Type 0
  After k t e = key_eq e.key k ≡ true → t + dedupe ≤ e.at

  held-After :
      (k : Key) (t : ℕ) (calls : List Call) (now : ℕ) (s : Throttle)
      → t + dedupe ≤ now
      → IsMonotone now calls
      → All (After k t) (run dedupe calls s).0
  unfolding run
  held-After k t [] now s l m = tt
  held-After k t (c ∷ calls) now s l m =
      let later =
        held-After k t calls c.now (should_send dedupe c.now c.key s).1 (omega arith) m.1 in
      elim (Bool-cases (should_send dedupe c.now c.key s).0) [
        | inl sent ↦ rw sent (λ e. omega arith, later)
        | inr not_sent ↦ rw not_sent later
      ]

  held :
      (k : Key) (t : ℕ) (calls : List Call) (now : ℕ) (s : Throttle)
      → IsMonotone now calls
      → IsBounded dedupe now s
      → holds k t s.recent ≡ true
      → All (After k t) (run dedupe calls s).0
  unfolding run
  held k t [] now s m b h = tt
  held k t (c ∷ calls) now s m b h = elim (Bool-cases (ltb c.now (t + dedupe))) [
    | inr over ↦ held-After k t (c ∷ calls) c.now s (ground arith) (le_refl c.now, m.1)
    | inl live ↦
        let s' = (should_send dedupe c.now c.key s).1 in
        let step = held_step dedupe k t now c.now c.key s m.0 (ground arith) b h in
        let later =
          held k t calls c.now s' m.1 (should_send-IsBounded dedupe now c.now c.key s m.0 b)
            step.1 in
        elim (Bool-cases (should_send dedupe c.now c.key s).0) [
          | inl sent ↦ rw (sent, run) (λ e. absurd (false≢true (sym (step.0 sent) ∙ e)), later)
          | inr not_sent ↦ rw (not_sent, run) later
        ]
  ]

  -- the notices that a run sends, in order: each of one key a full interval after the one before
  abbrev pub Spaced : List Sent → Type 0
  Spaced [] = Unit
  Spaced (e ∷ es) = All (After e.key e.at) es × Spaced es

  sent_is_held :
      (now : ℕ) (key : Key) (s : Throttle)
      → length s.recent ≤ 40
      → (admit dedupe now key s).0 ≡ true
      → holds key now (admit dedupe now key s).1.recent ≡ true
  unfolding admit
  sent_is_held now key s few h = elim (Bool-cases (leb max_notices s.sent_in_window)) [
    | inl full ↦ absurd (ground arith)
    | inr room ↦ rw (room, remember_lem dedupe now key s few) (holds_last key now s.recent)
  ]

  -- what a call sends, it remembers
  sent_step :
      (now now' : ℕ) (key : Key) (s : Throttle)
      → now ≤ now'
      → IsBounded dedupe now s
      → (should_send dedupe now' key s).0 ≡ true
      → holds key now' (should_send dedupe now' key s).1.recent ≡ true
  unfolding should_send prune
  sent_step now now' key s m b h =
      let pruned = prune dedupe now' s in
      let rolled = roll dedupe now' pruned in
      let rb =
        roll-IsBounded dedupe now' pruned (keep-AllLive dedupe now' s.recent)
          (prune-IsBounded dedupe now now' s m b) in
      elim (Bool-cases (is_recent key pruned.recent)) [
        | inl seen ↦ absurd (ground arith)
        | inr new ↦
            rw new
              (sent_is_held now' key rolled (length-recent-le dedupe now' rolled rb) (rw new at h))
      ]

  -- While the clock does not go back, two notices of one kind, actor and target are sent at least
  -- the interval apart, whatever other calls come between them.
  pub run-Spaced :
      (calls : List Call) (now : ℕ) (s : Throttle)
      → IsMonotone now calls
      → IsBounded dedupe now s
      → Spaced (run dedupe calls s).0
  unfolding run
  run-Spaced [] now s m b = tt
  run-Spaced (c ∷ calls) now s m b =
      let s' = (should_send dedupe c.now c.key s).1 in
      let b' = should_send-IsBounded dedupe now c.now c.key s m.0 b in
      let later = run-Spaced calls c.now s' m.1 b' in
      elim (Bool-cases (should_send dedupe c.now c.key s).0) [
        | inl sent ↦
            rw sent (
              held c.key c.now calls c.now s' m.1 b' (sent_step now c.now c.key s m.0 b sent),
              later,
            )
        | inr not_sent ↦ rw not_sent later
      ]
