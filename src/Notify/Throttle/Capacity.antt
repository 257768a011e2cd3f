-- ===== src/Notify/Throttle/Capacity.antt =====
-- The caps hold after every call, and none of the remembered notices is dropped to make room.
use synapse_guardian.Prelude.{
  ℕ, ◌+◌, ◌-◌, ◌≡◌, ◌≤◌, ◌<◌, ◌⊎◌, inl, inr, false, List, [], ◌∷◌, ◌++◌, arith, leb, if◌then◌else◌,
  Bool-cases, length, All, All-append,
}
use native.Mathlib.Nat.{le_refl}
use synapse_guardian.Notify.Throttle.{
  Key, Sent, Throttle, Call, max_recent, max_notices, is_recent, prune, roll, remember, admit,
  should_send, run,
}
use synapse_guardian.Notify.Throttle.Bounds.{
  count_new, count_old, length-counts, count_new-append, count_old-append, Placed, IsBounded,
  prune-IsBounded, roll-IsBounded, keep-AllLive,
}

few_kept : (n : ℕ) → n ≤ 40 → leb max_recent n ≡ false
few_kept n h = ground arith

count_one-le : (ws : ℕ) (e : Sent) → count_new ws (e ∷ []) ≤ 1
count_one-le ws e = ground arith

count_one-old : (ws : ℕ) (e : Sent) → ws ≤ e.at → count_old ws (e ∷ []) ≡ 0
count_one-old ws e h = ground arith

module _ (dedupe : ℕ) where
  -- now lies in the current window
  abbrev InWindow : ℕ → Throttle → Type 0
  InWindow now s = (now ≤ s.window_started) ⊎ (now < s.window_started + dedupe)

  roll-InWindow : (now : ℕ) (s : Throttle) → InWindow now (roll dedupe now s)
  unfolding roll
  roll-InWindow now s = elim (Bool-cases (leb (s.window_started + dedupe) now)) [
    | inl over ↦ rw over (inl (omega arith))
    | inr going ↦ rw going (inr (ground arith))
  ]

  pub length-recent-le : (now : ℕ) (s : Throttle) → IsBounded dedupe now s → length s.recent ≤ 40
  length-recent-le now s b =
      omega
        (arith, length-counts s.window_started s.recent, b.new_counted, b.old_capped, b.sent_capped)

  -- With so few notices remembered, none is dropped to make room.
  pub remember_lem :
      (now : ℕ) (key : Key) (s : Throttle)
      → length s.recent ≤ 40
      → remember dedupe now key s ≡ record s {
        recent = s.recent ++ record { key = key; at = now } ∷ [];
        sent_in_window = s.sent_in_window + 1;
      }
  unfolding remember
  remember_lem now key s h = rw (few_kept (length s.recent) h)

  remember-IsBounded :
      (now : ℕ) (key : Key) (s : Throttle)
      → s.sent_in_window < max_notices
      → InWindow now s
      → IsBounded dedupe now s
      → IsBounded dedupe now (remember dedupe now key s)
  remember-IsBounded now key s room w b =
      let entry : Sent = record { key = key; at = now } in
      rw (remember_lem now key s (length-recent-le now s b)) (record {
        started = b.started;
        sent_capped = omega arith;
        new_counted = omega (
          arith,
          count_new-append s.window_started s.recent (entry ∷ []),
          count_one-le s.window_started entry,
          b.new_counted,
        );
        old_capped = omega (
          arith,
          count_old-append s.window_started s.recent (entry ∷ []),
          count_one-old s.window_started entry b.started,
          b.old_capped,
        );
        placed =
            All-append (Placed dedupe s.window_started now) s.recent (entry ∷ []) b.placed
              ((le_refl now, w), tt);
      })

  admit-IsBounded :
      (now : ℕ) (key : Key) (s : Throttle)
      → InWindow now s
      → IsBounded dedupe now s
      → IsBounded dedupe now (admit dedupe now key s).1
  unfolding admit
  admit-IsBounded now key s w b = elim (Bool-cases (leb max_notices s.sent_in_window)) [
    | inl full ↦ rw full (record {
      started = b.started;
      sent_capped = b.sent_capped;
      new_counted = b.new_counted;
      old_capped = b.old_capped;
      placed = b.placed;
    })
    | inr room ↦ rw room (remember-IsBounded now key s (ground arith) w b)
  ]

  -- Every call at a later time keeps the caps: at most 20 notices of the current window and at
  -- most 20 of earlier ones are remembered, and at most 20 have been sent in the window.
  pub should_send-IsBounded :
      (now now' : ℕ) (key : Key) (s : Throttle)
      → now ≤ now'
      → IsBounded dedupe now s
      → IsBounded dedupe now' (should_send dedupe now' key s).1
  unfolding should_send prune
  should_send-IsBounded now now' key s h b =
      let pruned = prune dedupe now' s in
      let pb = prune-IsBounded dedupe now now' s h b in
      elim (Bool-cases (is_recent key pruned.recent)) [
        | inl seen ↦ rw seen pb
        | inr new ↦ rw new (
            admit-IsBounded now' key (roll dedupe now' pruned) (roll-InWindow now' pruned)
              (roll-IsBounded dedupe now' pruned (keep-AllLive dedupe now' s.recent) pb))
      ]

  -- the notices that may still be sent before `from + dedupe`
  budget : ℕ → Throttle → ℕ
  budget from s =
      (max_notices - s.sent_in_window) + (if leb from s.window_started then 0 else max_notices)

  budget-should_send :
      (from now : ℕ) (key : Key) (s : Throttle)
      → from ≤ now
      → now < from + dedupe
      → (if (should_send dedupe now key s).0 then 1 else 0)
          + budget from (should_send dedupe now key s).1
        ≤ budget from s
  unfolding budget should_send prune roll admit remember
  budget-should_send from now key s h k = ground arith

  flood-budget :
      (from : ℕ) (calls : List Call) (s : Throttle)
      → All (λ c. (from ≤ c.now) × (c.now < from + dedupe)) calls
      → length (run dedupe calls s).0 ≤ budget from s
  unfolding run
  flood-budget from [] s a = omega arith
  flood-budget from (c ∷ calls) s a = ground (
    arith,
    budget-should_send from c.now c.key s,
    flood-budget from calls (should_send dedupe c.now c.key s).1 a.1,
  )

  budget-le : (from : ℕ) (s : Throttle) → budget from s ≤ 40
  unfolding budget
  budget-le from s = ground arith

  -- However many calls there are in one interval of the length `dedupe`, and from whatever state,
  -- at most 40 notices are sent.
  pub flood-le :
      (from : ℕ) (calls : List Call) (s : Throttle)
      → All (λ c. (from ≤ c.now) × (c.now < from + dedupe)) calls
      → length (run dedupe calls s).0 ≤ 40
  flood-le from calls s a = omega (arith, flood-budget from calls s a, budget-le from s)
