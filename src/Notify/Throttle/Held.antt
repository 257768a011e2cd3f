-- ===== src/Notify/Throttle/Held.antt =====
-- What a sent notice does to later calls: it is held for the interval.
use synapse_guardian.Prelude.{
  ℕ, ◌+◌, ◌≡◌, ◌≤◌, ◌<◌, refl, sym, ap, ◌∙◌, inl, inr, Bool, true, false, ◌&&◌, List, [], ◌∷◌, ◌++◌,
  arith, leb, ◌==◌, Bool-cases, length, keep, any, any-append, false≢true, text_eq_iff,
}
use synapse_guardian.Notify.Throttle.{
  Key, Sent, Throttle, key_eq, is_recent, is_live, prune, roll, admit, should_send, max_notices,
}
use synapse_guardian.Notify.Throttle.Bounds.{
  IsBounded, prune-IsBounded, roll-IsBounded, keep-AllLive,
}
use synapse_guardian.Notify.Throttle.Capacity.{remember_lem, length-recent-le}

key_eq_refl : (k : Key) → key_eq k k ≡ true
unfolding key_eq
key_eq_refl k =
    ground
      (arith, text_eq_iff k.kind k.kind, text_eq_iff k.actor k.actor, text_eq_iff k.target k.target)

key_eq→eq : (a b : Key) → key_eq a b ≡ true → a ≡ b
unfolding key_eq
key_eq→eq a b h =
    ground
      (arith, text_eq_iff a.kind b.kind, text_eq_iff a.actor b.actor, text_eq_iff a.target b.target)

-- the dictionary holds the notice of this key and time
unfoldable pub holds : Key → ℕ → List Sent → Bool
holds k t = any (λ e. key_eq e.key k && e.at == t)

holds→is_recent : (k : Key) (t : ℕ) (es : List Sent) → holds k t es ≡ true → is_recent k es ≡ true
unfolding holds is_recent any
holds→is_recent k t [] h = h
holds→is_recent k t (e ∷ es) h = ground (arith, holds→is_recent k t es)

holds-append :
    (k : Key) (t : ℕ) (es ds : List Sent) → holds k t es ≡ true → holds k t (es ++ ds) ≡ true
unfolding holds
holds-append k t es ds h = rw any-append (rw h refl)

pub holds_last :
    (k : Key) (t : ℕ) (es : List Sent) → holds k t (es ++ record { key = k; at = t } ∷ []) ≡ true
unfolding holds any
holds_last k t [] = ground (arith, key_eq_refl k)
holds_last k t (e ∷ es) = ground (arith, holds_last k t es)

other_key :
    (key k : Key) (es : List Sent)
    → is_recent key es ≡ false
    → is_recent k es ≡ true
    → key_eq key k ≡ false
other_key key k es new old = elim (Bool-cases (key_eq key k)) [
  | inl e ↦
      absurd (false≢true (sym new ∙ ap (λ (j : Key). is_recent j es) (key_eq→eq key k e) ∙ old))
  | inr ne ↦ ne
]

module _ (dedupe : ℕ) where
  holds-keep :
      (k : Key) (t now : ℕ) (es : List Sent)
      → now < t + dedupe
      → holds k t es ≡ true
      → holds k t (keep (is_live dedupe now) es) ≡ true
  unfolding holds any keep is_live
  holds-keep k t now [] l h = h
  holds-keep k t now (e ∷ es) l h = ground (arith, holds-keep k t now es l)

  recent-roll : (now : ℕ) (s : Throttle) → (roll dedupe now s).recent ≡ s.recent
  unfolding roll
  recent-roll now s = ground arith

  holds-admit :
      (k : Key) (t now : ℕ) (key : Key) (s : Throttle)
      → length s.recent ≤ 40
      → holds k t s.recent ≡ true
      → holds k t (admit dedupe now key s).1.recent ≡ true
  unfolding admit
  holds-admit k t now key s few h = elim (Bool-cases (leb max_notices s.sent_in_window)) [
    | inl full ↦ rw full h
    | inr room ↦ rw (room, remember_lem dedupe now key s few) (holds-append k t s.recent _ h)
  ]

  -- a call sends nothing of a key that is held, and goes on holding it
  pub held_step :
      (k : Key) (t now now' : ℕ) (key : Key) (s : Throttle)
      → now ≤ now'
      → now' < t + dedupe
      → IsBounded dedupe now s
      → holds k t s.recent ≡ true
      → ((should_send dedupe now' key s).0 ≡ true → key_eq key k ≡ false)
        × (holds k t (should_send dedupe now' key s).1.recent ≡ true)
  unfolding should_send prune
  held_step k t now now' key s m l b h =
      let pruned = prune dedupe now' s in
      let rolled = roll dedupe now' pruned in
      let hp = holds-keep k t now' s.recent l h in
      let rb =
        roll-IsBounded dedupe now' pruned (keep-AllLive dedupe now' s.recent)
          (prune-IsBounded dedupe now now' s m b) in
      elim (Bool-cases (is_recent key pruned.recent)) [
        | inl seen ↦ rw seen (λ e. absurd (false≢true e), hp)
        | inr new ↦ rw new (
          λ e. other_key key k pruned.recent new (holds→is_recent k t pruned.recent hp),
          holds-admit k t now' key rolled (length-recent-le dedupe now' rolled rb)
              (rw (recent-roll now' pruned) hp),
        )
      ]
