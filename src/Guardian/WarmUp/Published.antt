-- ===== src/Guardian/WarmUp/Published.antt =====
-- What a warm-up leaves in the room.
use synapse_guardian.Prelude.{
  ℕ, suc, ◌+◌, ◌≡◌, ◌≤◌, ◌<◌, refl, inl, inr, true, false, List, [], ◌∷◌, ◌++◌, Option, none, some,
  arith, length, Some, ◌⊎◌, sym, ◌∙◌, subst, Bool-cases,
}
use synapse_guardian.Guardian.{Setup}
use synapse_guardian.Publish.{
  Room, Publisher, new_publisher, payload_of, published, prime, is_last, send, publish_payload,
  publish,
}
use synapse_guardian.Publish.Once.{failed, sent, primed-prime}
use synapse_guardian.Value.{Value}
use synapse_guardian.Value.Equal.{value_eq}
use synapse_guardian.Guardian.WarmUp.{Attempt, warm_up_once, warm_up, once_lem, stops, retries}

is_last_lem :
    (last : Option Value) (payload : Value)
    → is_last last payload ≡ true
    → (v : Value) × (last ≡ some v) × (value_eq v payload ≡ true)
unfolding is_last
is_last_lem none payload h = absurd (cc)
is_last_lem (some v) payload h = (v, refl, h)

-- a payload that is published is sent, or is known to be there
publish_payload_lem :
    (room : Room) (payload : Value) (p : Publisher)
    → (publish_payload room payload p).0 ≡ true
    → ((publish_payload room payload p).2 ≡ payload ∷ [])
      ⊎ (((publish_payload room payload p).2 ≡ [])
          × ((v : Value) × (p.last ≡ some v) × (value_eq v payload ≡ true)))
unfolding publish_payload send
publish_payload_lem room payload p h = elim (Bool-cases (is_last p.last payload)) [
  | inl there ↦ inr (rw there refl, is_last_lem p.last payload there)
  | inr new ↦ elim (Bool-cases room.can_send) [
    | inl can ↦ inl (rw (new, can) refl)
    | inr cannot ↦ absurd (ground arith)
  ]
]

-- what the room holds at the first attempt, as far as it can be read
unfoldable pub held_first : List Attempt → Option Value
held_first [] = none
held_first (a ∷ attempts) = published a.room

module _ (setup : Setup) where
  -- the payload of the rules that an attempt has loaded
  abbrev pub payload_for : Attempt → Value
  payload_for a =
      payload_of setup.config.static_rules a.rules setup.config.dry_run setup.config.uninvited_joins

  -- The payload of one of the attempts is in the room: it is the one that was sent, or nothing was sent
  -- and the payload that was held before is equal to it.
  pub IsInRoom : Option Value → List Value → Attempt → Type 0
  IsInRoom held sent a =
      (sent ≡ payload_for a ∷ [])
      ⊎ ((sent ≡ []) × ((v : Value) × (held ≡ some v) × (value_eq v (payload_for a) ≡ true)))

  once_IsInRoom :
      (a : Attempt) (p : Publisher)
      → p.primed ≡ true
      → (warm_up_once setup a p).0 ≡ true
      → IsInRoom p.last (warm_up_once setup a p).2 a
  unfolding warm_up_once publish IsInRoom
  once_IsInRoom a p primed h =
      let here = primed-prime a.room p primed in
      rw here (
        publish_payload_lem a.room (payload_for a) p
          (subst (λ q. (publish_payload a.room (payload_for a) q).0 ≡ true) here h))

  fails_lem :
      (a : Attempt) (p : Publisher)
      → p.primed ≡ true
      → (warm_up_once setup a p).0 ≡ false
      → ((warm_up_once setup a p).2 ≡ [])
        × ((warm_up_once setup a p).1.last ≡ p.last)
        × ((warm_up_once setup a p).1.primed ≡ true)
  unfolding warm_up_once publish
  fails_lem a p primed h =
      let here = primed-prime a.room p primed in
      let (new, step) =
        failed (payload_for a) a.room p
          (subst (λ q. (publish_payload a.room (payload_for a) q).0 ≡ false) here h) in
      rw (here, step) (refl, refl, primed)

  goes_on :
      (attempt : ℕ) (b : Attempt) (attempts : List Attempt) (p : Publisher)
      → attempt < 5
      → (warm_up_once setup b p).0 ≡ false
      → (warm_up_once setup b p).2 ≡ []
      → let later = warm_up setup (suc attempt) attempts (warm_up_once setup b p).1 in
        let w = warm_up setup attempt (b ∷ attempts) p in
        (w.published ≡ later.published) × (w.sent ≡ later.sent)
  unfolding warm_up
  goes_on attempt b attempts p early fails silent =
      rw (fails, retries setup attempt early, silent, warm_up) (refl, refl)

  published_from :
      (attempt : ℕ) (before after : List Attempt) (a : Attempt) (p : Publisher)
      → length before + attempt ≤ 5
      → p.primed ≡ true
      → a.room.can_send ≡ true
      → let w = warm_up setup attempt (before ++ a ∷ after) p in
        (w.published ≡ true) × Some (IsInRoom p.last w.sent) (before ++ a ∷ [])
  unfolding warm_up
  published_from attempt [] after a p few primed can =
      rw (once_lem setup a p can, stops setup attempt, warm_up)
        (refl, inl (once_IsInRoom a p primed (once_lem setup a p can)))
  published_from attempt (b ∷ before) after a p few primed can =
      elim (Bool-cases (warm_up_once setup b p).0) [
        | inl done ↦
            rw (done, stops setup attempt, warm_up) (refl, inl (once_IsInRoom b p primed done))
        | inr fails ↦
            let (silent, same, still) = fails_lem b p primed fails in
            let (ih, later) =
              published_from (suc attempt) before after a (warm_up_once setup b p).1 (omega arith)
                still can in
            let (result, contents) =
              goes_on attempt b (before ++ a ∷ after) p (omega arith) fails silent in
            let next =
              warm_up setup (suc attempt) (before ++ a ∷ after) (warm_up_once setup b p).1 in
            let among = before ++ a ∷ [] in
            (
              result ∙ ih,
              inr (
                  subst (λ sent. Some (IsInRoom p.last sent) among) (sym contents)
                    (subst (λ last. Some (IsInRoom last next.sent) among) same later)),
            )
      ]

  -- If the room can be written at one of the first five attempts, the warm-up ends with success, and with
  -- the payload of that attempt or of an earlier one in the room: it is the only event that was sent, or
  -- nothing was sent and an equal payload was read from the room at the first attempt.
  pub warm_up_publishes :
      (before after : List Attempt) (a : Attempt)
      → length before ≤ 4
      → a.room.can_send ≡ true
      → let w = warm_up setup 1 (before ++ a ∷ after) new_publisher in
        (w.published ≡ true)
        × Some (IsInRoom (held_first (before ++ a ∷ after)) w.sent) (before ++ a ∷ [])
  unfolding warm_up warm_up_once publish prime held_first
  warm_up_publishes [] after a few can =
      published_from 1 [] after a
        (record { last = published a.room; primed = true; warned = false }) (omega arith) refl can
  warm_up_publishes (b ∷ before) after a few can =
      published_from 1 (b ∷ before) after a
        (record { last = published b.room; primed = true; warned = false }) (omega arith) refl can
