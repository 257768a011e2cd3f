-- ===== src/Notify/Throttle.antt =====
-- `_ThrottledNotifier`: one notice per (kind, actor, target) and interval, and a cap per window.
-- Times and the interval are counted in ticks of one length, from the start of the clock.
pub mod Bounds
pub mod Capacity
pub mod Held
pub mod Spacing
use synapse_guardian.Prelude.{
  ℕ, zero, suc, ◌+◌, ◌≡◌, Bool, true, false, ◌&&◌, ◌||◌, List, [], ◌∷◌, ◌++◌, leb, ltb, ◌==◌,
  if◌then◌else◌, Text, text_eq, length, any, keep,
}

abbrev pub max_recent : ℕ
max_recent = 512

abbrev pub max_notices : ℕ
max_notices = 20

-- (kind, actor, target)
pub record Key : Type 0 where
  pub kind : Text
  pub actor : Text
  pub target : Text

unfoldable pub key_eq : Key → Key → Bool
key_eq a b = text_eq a.kind b.kind && text_eq a.actor b.actor && text_eq a.target b.target

-- an item of the dictionary `_recent`, in the order of insertion
pub record Sent : Type 0 where
  pub key : Key
  pub at : ℕ

pub record Throttle : Type 0 where
  pub recent : List Sent
  pub window_started : ℕ
  pub sent_in_window : ℕ
  pub suppressed : ℕ

abbrev pub start : Throttle
start = record { recent = []; window_started = 0; sent_in_window = 0; suppressed = 0 }

-- key in self._recent
unfoldable pub is_recent : Key → List Sent → Bool
is_recent key = any (λ e. key_eq e.key key)

-- the time of min(self._recent, key=self._recent.__getitem__), if it is below `t`
unfoldable pub oldest_from : ℕ → List Sent → ℕ
oldest_from t [] = t
oldest_from t (e ∷ es) = oldest_from (if ltb e.at t then e.at else t) es

-- deletes the first item with that time
unfoldable pub delete_at : ℕ → List Sent → List Sent
delete_at t [] = []
delete_at t (e ∷ es) = let rest = delete_at t es in if e.at == t then es else e ∷ rest

unfoldable pub delete_oldest : List Sent → List Sent
delete_oldest [] = []
delete_oldest (e ∷ es) = delete_at (oldest_from e.at es) (e ∷ es)

-- A call of `notify`, at its time.
pub record Call : Type 0 where
  pub key : Key
  pub now : ℕ

module _ (dedupe : ℕ) where
  -- now - t < self._dedupe_s
  unfoldable pub is_live : ℕ → Sent → Bool
  is_live now e = ltb now (e.at + dedupe)

  unfoldable pub prune : ℕ → Throttle → Throttle
  prune now s = record s { recent = keep (is_live now) s.recent }

  -- a window that is over is replaced by one that starts now
  unfoldable pub roll : ℕ → Throttle → Throttle
  roll now s =
      if leb (s.window_started + dedupe) now
      then record s { window_started = now; sent_in_window = 0; suppressed = 0 }
      else s

  -- the end of `_should_send`, past the cap
  unfoldable pub remember : ℕ → Key → Throttle → Throttle
  remember now key s =
      let kept = if leb max_recent (length s.recent) then delete_oldest s.recent else s.recent in
      record s {
        recent = kept ++ record { key = key; at = now } ∷ [];
        sent_in_window = s.sent_in_window + 1;
      }

  -- the part of `_should_send` after the test for a duplicate
  unfoldable pub admit : ℕ → Key → Throttle → Bool × Throttle
  admit now key s =
      if leb max_notices s.sent_in_window
      then (false, record s { suppressed = s.suppressed + 1 })
      else (true, remember now key s)

  unfoldable pub should_send : ℕ → Key → Throttle → Bool × Throttle
  unfolding prune roll admit
  should_send now key s =
      let pruned = prune now s in
      if is_recent key pruned.recent then (false, pruned) else admit now key (roll now pruned)

  -- what a sequence of calls sends, and the state that it leaves
  unfoldable pub run : List Call → Throttle → List Sent × Throttle
  run [] s = ([], s)
  run (c ∷ calls) s =
      let (sent, s') = should_send c.now c.key s in
      let (later, end) = run calls s' in
      ((if sent then record { key = c.key; at = c.now } ∷ later else later), end)
