-- ===== src/Notify/Throttle/Bounds.antt =====
-- How much the throttle remembers and sends: the caps hold, and the cap on remembered notices is
-- never the one that acts.
use synapse_guardian.Prelude.{
  ℕ, suc, ◌+◌, ◌≡◌, ◌≤◌, ◌<◌, refl, ◌⊎◌, inl, inr, Bool, true, List, [], ◌∷◌, ◌++◌, arith, leb,
  if◌then◌else◌, Bool-cases, length, keep, All,
}
use synapse_guardian.Notify.Throttle.{Sent, Throttle, start, max_notices, is_live, prune, roll}

-- remembered notices of the current window, and of windows before it
abbrev pub count_new : ℕ → List Sent → ℕ
count_new ws [] = 0
count_new ws (e ∷ es) = let rest = count_new ws es in if leb ws e.at then suc rest else rest

abbrev pub count_old : ℕ → List Sent → ℕ
count_old ws [] = 0
count_old ws (e ∷ es) = let rest = count_old ws es in if leb ws e.at then rest else suc rest

pub length-counts : (ws : ℕ) (es : List Sent) → length es ≡ count_new ws es + count_old ws es
length-counts ws [] = refl
length-counts ws (e ∷ es) = ground (arith, length-counts ws es)

count_new-keep-le :
    (p : Sent → Bool) (ws : ℕ) (es : List Sent) → count_new ws (keep p es) ≤ count_new ws es
unfolding keep
count_new-keep-le p ws [] = omega arith
count_new-keep-le p ws (e ∷ es) = ground (arith, count_new-keep-le p ws es)

count_old-keep-le :
    (p : Sent → Bool) (ws : ℕ) (es : List Sent) → count_old ws (keep p es) ≤ count_old ws es
unfolding keep
count_old-keep-le p ws [] = omega arith
count_old-keep-le p ws (e ∷ es) = ground (arith, count_old-keep-le p ws es)

pub count_new-append :
    (ws : ℕ) (es ds : List Sent) → count_new ws (es ++ ds) ≡ count_new ws es + count_new ws ds
count_new-append ws [] ds = omega arith
count_new-append ws (e ∷ es) ds = ground (arith, count_new-append ws es ds)

pub count_old-append :
    (ws : ℕ) (es ds : List Sent) → count_old ws (es ++ ds) ≡ count_old ws es + count_old ws ds
count_old-append ws [] ds = omega arith
count_old-append ws (e ∷ es) ds = ground (arith, count_old-append ws es ds)

module _ (dedupe : ℕ) where
  -- a remembered notice is not from the future, and not from after its window
  abbrev pub Placed : ℕ → ℕ → Sent → Type 0
  Placed ws now e = (e.at ≤ now) × ((e.at ≤ ws) ⊎ (e.at < ws + dedupe))

  pub record IsBounded (now : ℕ) (s : Throttle) : Type 0 where
    pub started : s.window_started ≤ now
    pub sent_capped : s.sent_in_window ≤ max_notices
    pub new_counted : count_new s.window_started s.recent ≤ s.sent_in_window
    pub old_capped : count_old s.window_started s.recent ≤ max_notices
    pub placed : All (Placed s.window_started now) s.recent

  pub start-IsBounded : (now : ℕ) → IsBounded now start
  start-IsBounded now = record {
    started = omega arith;
    sent_capped = omega arith;
    new_counted = omega arith;
    old_capped = omega arith;
    placed = tt;
  }

  Placed-keep :
      (ws now now' : ℕ) (es : List Sent)
      → now ≤ now'
      → All (Placed ws now) es
      → All (Placed ws now') (keep (is_live dedupe now') es)
  unfolding keep
  Placed-keep ws now now' [] h a = tt
  Placed-keep ws now now' (e ∷ es) h a = elim (Bool-cases (is_live dedupe now' e)) [
    | inl l ↦ rw l ((omega arith, a.0.1), Placed-keep ws now now' es h a.1)
    | inr l ↦ rw l (Placed-keep ws now now' es h a.1)
  ]

  pub prune-IsBounded :
      (now now' : ℕ) (s : Throttle)
      → now ≤ now'
      → IsBounded now s
      → IsBounded now' (prune dedupe now' s)
  unfolding prune
  prune-IsBounded now now' s h b = record {
    started = omega arith;
    sent_capped = b.sent_capped;
    new_counted =
        omega
          (arith, count_new-keep-le (is_live dedupe now') s.window_started s.recent, b.new_counted);
    old_capped =
        omega
          (arith, count_old-keep-le (is_live dedupe now') s.window_started s.recent, b.old_capped);
    placed = Placed-keep s.window_started now now' s.recent h b.placed;
  }

  -- every remembered notice is still within the interval
  abbrev pub AllLive : ℕ → List Sent → Type 0
  AllLive now = All (λ e. is_live dedupe now e ≡ true)

  pub keep-AllLive : (now : ℕ) (es : List Sent) → AllLive now (keep (is_live dedupe now) es)
  unfolding keep
  keep-AllLive now [] = tt
  keep-AllLive now (e ∷ es) = elim (Bool-cases (is_live dedupe now e)) [
    | inl l ↦ rw l (l, keep-AllLive now es)
    | inr l ↦ rw l (keep-AllLive now es)
  ]

  -- When the window is over, what is remembered lies between its start and now.
  window_over :
      (ws now : ℕ) (es : List Sent)
      → ws + dedupe ≤ now
      → AllLive now es
      → All (Placed ws now) es
      → (count_old ws es ≡ 0) × (count_new now es ≡ 0) × All (Placed now now) es
  unfolding is_live
  window_over ws now [] h l a = (refl, refl, tt)
  window_over ws now (e ∷ es) h l a =
      let (old, new, later) = window_over ws now es h l.1 a.1 in
      let live : now < e.at + dedupe = ground (arith, l.0) in
      let early : e.at < now = omega arith in
      (ground arith, ground arith, ((a.0.0, inl a.0.0), later))

  pub roll-IsBounded :
      (now : ℕ) (s : Throttle)
      → AllLive now s.recent
      → IsBounded now s
      → IsBounded now (roll dedupe now s)
  unfolding roll
  roll-IsBounded now s l b = elim (Bool-cases (leb (s.window_started + dedupe) now)) [
    | inl over ↦
        let (old, new, later) =
          window_over s.window_started now s.recent (ground arith) l b.placed in
        rw over (record {
          started = omega arith;
          sent_capped = omega arith;
          new_counted = omega arith;
          old_capped = omega (
            arith,
            length-counts s.window_started s.recent,
            length-counts now s.recent,
            b.new_counted,
            b.sent_capped,
          );
          placed = later;
        })
    | inr going ↦ rw going b
  ]
