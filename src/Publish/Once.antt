-- ===== src/Publish/Once.antt =====
-- A payload is sent once, and again only when it has changed.
use synapse_guardian.Prelude.{
  ◌≡◌, refl, ap, ◌∙◌, inl, inr, Bool, true, false, List, [], ◌∷◌, some, arith, Text, text_eq,
  text_eq_refl, Bool-cases,
}
use synapse_guardian.Value.{Value, items_of_texts, lookup}
use synapse_guardian.Value.Equal.{value_eq, items_eq}
use synapse_guardian.Matrix.{Event, RoomState, state_at}
use synapse_guardian.Policy.Kinds.{plural}
use synapse_guardian.Policy.Rules.{RuleSet}
use synapse_guardian.Policy.Payload.{to_payload}
use synapse_guardian.Config.{JoinPolicy, deny, known_rooms}
use synapse_guardian.Publish.{
  Room, Publisher, new_publisher, payload_of, published, prime, is_last, send, publish_payload,
  publish, without, payload_in, effective_rules_type,
}

texts_eq_refl : (ss : List Text) → items_eq (items_of_texts ss) (items_of_texts ss) ≡ true
unfolding value_eq items_of_texts
texts_eq_refl [] = refl
texts_eq_refl (s ∷ ss) = rw (text_eq_refl s, texts_eq_refl ss) refl

to_payload_refl : (rs : RuleSet) → value_eq (to_payload rs) (to_payload rs) ≡ true
unfolding to_payload value_eq lookup text_eq plural
to_payload_refl rs = simp texts_eq_refl

payload_refl :
    (static effective : RuleSet) (dry_run : Bool) (policy : JoinPolicy)
    → let payload = payload_of static effective dry_run policy in value_eq payload payload ≡ true
unfolding payload_of value_eq lookup text_eq
payload_refl static effective true deny = simp to_payload_refl
payload_refl static effective true known_rooms = simp to_payload_refl
payload_refl static effective false deny = simp to_payload_refl
payload_refl static effective false known_rooms = simp to_payload_refl

module _ (payload : Value) where
  pub quiet :
      (room : Room) (p : Publisher)
      → is_last p.last payload ≡ true
      → publish_payload room payload p ≡ (true, p, [])
  unfolding publish_payload
  quiet room p there = rw there refl

  pub sent :
      (room : Room) (p : Publisher)
      → is_last p.last payload ≡ false
      → room.can_send ≡ true
      → publish_payload room payload p
        ≡ (true, record p { warned = false; last = some payload }, payload ∷ [])
  unfolding publish_payload send
  sent room p new can = rw (new, can) refl

  pub failed :
      (room : Room) (p : Publisher)
      → (publish_payload room payload p).0 ≡ false
      → (is_last p.last payload ≡ false)
        × (publish_payload room payload p ≡ (false, record p { warned = true }, []))
  unfolding publish_payload send
  failed room p h = elim (Bool-cases (is_last p.last payload)) [
    | inl there ↦ absurd (ground arith)
    | inr new ↦ elim (Bool-cases room.can_send) [
      | inl can ↦ absurd (ground arith)
      | inr cannot ↦ (new, rw (new, cannot) refl)
    ]
  ]

  again :
      (room : Room) (p : Publisher)
      → value_eq payload payload ≡ true
      → (publish_payload room payload p).0 ≡ true
      → is_last (publish_payload room payload p).1.last payload ≡ true
  unfolding is_last
  again room p same h = elim (Bool-cases (is_last p.last payload)) [
    | inl there ↦ rw (quiet room p there) there
    | inr new ↦ elim (Bool-cases room.can_send) [
      | inl can ↦ rw (sent room p new can) same
      | inr cannot ↦ absurd (unfold publish_payload send in ground arith)
    ]
  ]

  pub keeps_primed :
      (room : Room) (p : Publisher)
      → p.primed ≡ true
      → (publish_payload room payload p).1.primed ≡ true
  unfolding publish_payload send
  keeps_primed room p h = ground arith

pub prime-primed : (room : Room) (p : Publisher) → (prime room p).primed ≡ true
unfolding prime
prime-primed room p = ground arith

pub primed-prime : (room : Room) (p : Publisher) → p.primed ≡ true → prime room p ≡ p
unfolding prime
primed-prime room p h = rw h refl

-- What has been published is not sent again: after a call that worked, a call with the same rules works
-- and sends nothing, whatever the room answers by then.
pub publish_again_is_quiet :
    (room room' : Room) (static effective : RuleSet) (dry_run : Bool) (policy : JoinPolicy)
    (p : Publisher)
    → (publish room static effective dry_run policy p).0 ≡ true
    → let p' = (publish room static effective dry_run policy p).1 in
      publish room' static effective dry_run policy p' ≡ (true, p', [])
unfolding publish
publish_again_is_quiet room room' static effective dry_run policy p h =
    let payload = payload_of static effective dry_run policy in
    let same = payload_refl static effective dry_run policy in
    let p' = (publish_payload room payload (prime room p)).1 in
    ap (publish_payload room' payload)
      (primed-prime room' p' (keeps_primed payload room (prime room p) (prime-primed room p)))
    ∙ quiet payload room' p' (again payload room (prime room p) same h)

published_lem :
    (room : Room) (static effective : RuleSet) (dry_run : Bool) (policy : JoinPolicy)
    (state : RoomState) (e : Event)
    → room.state ≡ some state
    → state_at effective_rules_type [] state ≡ some e
    → e.content ≡ payload_of static effective dry_run policy
    → published room ≡ some (payload_of static effective dry_run policy)
unfolding published payload_in payload_of without text_eq
published_lem room static effective dry_run policy state e read there holds =
    rw (read, published) (rw (there, payload_in) (rw holds refl))

-- A new publisher sends nothing and reports success, if the room can be read and its event holds
-- the payload that would be sent.
pub restart_is_quiet :
    (room : Room) (static effective : RuleSet) (dry_run : Bool) (policy : JoinPolicy)
    (state : RoomState) (e : Event)
    → room.state ≡ some state
    → state_at effective_rules_type [] state ≡ some e
    → e.content ≡ payload_of static effective dry_run policy
    → ((publish room static effective dry_run policy new_publisher).0 ≡ true)
      × ((publish room static effective dry_run policy new_publisher).2 ≡ [])
unfolding publish prime
restart_is_quiet room static effective dry_run policy state e read there holds =
    let payload = payload_of static effective dry_run policy in
    let p : Publisher = record { last = some payload; primed = true; warned = false } in
    rw
      (
        published_lem room static effective dry_run policy state e read there holds,
        quiet payload room p (unfold is_last in payload_refl static effective dry_run policy),
      )
      (refl, refl)

-- A call that fails leaves the payload to be sent: the next call with the same rules sends it, if the
-- room can be written by then.
pub failed_publish_is_retried :
    (room room' : Room) (static effective : RuleSet) (dry_run : Bool) (policy : JoinPolicy)
    (p : Publisher)
    → (publish room static effective dry_run policy p).0 ≡ false
    → room'.can_send ≡ true
    → let p' = (publish room static effective dry_run policy p).1 in
      ((publish room' static effective dry_run policy p').0 ≡ true)
      × ((publish room' static effective dry_run policy p').2
          ≡ payload_of static effective dry_run policy ∷ [])
unfolding publish
failed_publish_is_retried room room' static effective dry_run policy p h can =
    let payload = payload_of static effective dry_run policy in
    let q = prime room p in
    let (new, step) = failed payload room q h in
    rw
      (
        step,
        primed-prime room' (record q { warned = true }) (prime-primed room p),
        sent payload room' (record q { warned = true }) new can,
      )
      (refl, refl)
