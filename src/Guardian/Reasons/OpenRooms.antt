-- ===== src/Guardian/Reasons/OpenRooms.antt =====
-- What opens a room from its creation: a description apart from the order in which
-- `_open_room_reason` looks.
use synapse_guardian.Prelude.{
  ◌≡◌, refl, sym, ◌∙◌, ◌⊎◌, inl, inr, ◌↔◌, Bool, true, false, ◌||◌, arith, codes, Bool-cases,
  is_given,
}
use synapse_guardian.Value.{truthy, Value, arr, obj, Items, nil, cons, Fields, get, is_text}
use synapse_guardian.Guardian.Reasons.{
  join_rule_of, is_closed_rule, opens_room, any_opens, open_state, open_room_reason,
}

-- `v` is one of the items
pub data IsItem (v : Value) : Items → Type 0 where
  first : {vs : Items} → IsItem v (cons v vs)
  later : {w : Value} {vs : Items} → IsItem v vs → IsItem v (cons w vs)

-- The ways in which the body of a `createRoom` request opens the room.
pub data Opens : Value → Type 0 where
  public_visibility :
      {c : Fields} → is_text (codes "public") (get (codes "visibility") c) ≡ true → Opens (obj c)
  public_preset :
      {c : Fields} → is_text (codes "public_chat") (get (codes "preset") c) ≡ true → Opens (obj c)
  given_alias : {c : Fields} → truthy (get (codes "room_alias_name") c) ≡ true → Opens (obj c)
  open_join_rules :
      {c event : Fields} {events : Items}
      → get (codes "initial_state") c ≡ arr events
      → IsItem (obj event) events
      → is_text (codes "m.room.join_rules") (get (codes "type") event) ≡ true
      → is_closed_rule (join_rule_of (get (codes "content") event)) ≡ false
      → Opens (obj c)

-- an item of `initial_state` that sets open join rules
OpensJoins : Items → Type 0
OpensJoins events =
    (event : Fields) × IsItem (obj event) events
    × (is_text (codes "m.room.join_rules") (get (codes "type") event) ≡ true)
    × (is_closed_rule (join_rule_of (get (codes "content") event)) ≡ false)

deeper : (v : Value) (events : Items) → OpensJoins events → OpensJoins (cons v events)
unfolding OpensJoins
deeper v events (event, there, typed, opened) = (event, later there, typed, opened)

any_opens_sound : (events : Items) → any_opens events ≡ true → OpensJoins events
unfolding any_opens opens_room OpensJoins
any_opens_sound nil h = cc
any_opens_sound (cons (obj event) events) h = elim (Bool-cases (opens_room (obj event))) [
  | inl here ↦ (event, first, ground arith, ground arith)
  | inr away ↦ deeper (obj event) events (any_opens_sound events (ground arith))
]
any_opens_sound (cons v events) h = deeper _ events (any_opens_sound events h)

any_opens_complete :
    (event : Fields) {events : Items}
    → IsItem (obj event) events
    → is_text (codes "m.room.join_rules") (get (codes "type") event) ≡ true
    → is_closed_rule (join_rule_of (get (codes "content") event)) ≡ false
    → any_opens events ≡ true
unfolding any_opens opens_room
any_opens_complete event first typed opened = rw (typed, opened) refl
any_opens_complete event (later there) typed opened =
    let ih = any_opens_complete event there typed opened in ground arith

open_state_sound :
    (v : Value)
    → open_state v ≡ true
    → (events : Items) × (v ≡ arr events) × (any_opens events ≡ true)
unfolding open_state
open_state_sound (arr events) h = (events, refl, h)
open_state_sound v h = cc

given_lem :
    (c : Fields)
    → is_given (open_room_reason (obj c)) ≡ (
        is_text (codes "public") (get (codes "visibility") c)
        || (is_text (codes "public_chat") (get (codes "preset") c)
            || (truthy (get (codes "room_alias_name") c)
                || open_state (get (codes "initial_state") c))))
unfolding open_room_reason
given_lem c = ground arith

from_state : (c : Fields) → open_state (get (codes "initial_state") c) ≡ true → Opens (obj c)
unfolding OpensJoins
from_state c h =
    let (events, there, opened) = open_state_sound (get (codes "initial_state") c) h in
    let (event, item, typed, free) = any_opens_sound events opened in
    open_join_rules there item typed free

or_cases : (a b : Bool) → (a || b) ≡ true → (a ≡ true) ⊎ (b ≡ true)
or_cases true b h = inl refl
or_cases false b h = inr h

reason_sound : (v : Value) → is_given (open_room_reason v) ≡ true → Opens v
reason_sound (obj c) h = elim (or_cases _ _ (sym (given_lem c) ∙ h)) [
  | inl visible ↦ public_visibility visible
  | inr h' ↦ elim (or_cases _ _ h') [
    | inl preset ↦ public_preset preset
    | inr h'' ↦ elim (or_cases _ _ h'') [
      | inl named ↦ given_alias named
      | inr free ↦ from_state c free
    ]
  ]
]
reason_sound v h = unfold open_room_reason in cc

reason_complete : (v : Value) → Opens v → is_given (open_room_reason v) ≡ true
reason_complete v (public_visibility {c} h) = rw (given_lem c, h) refl
reason_complete v (public_preset {c} h) = given_lem c ∙ ground arith
reason_complete v (given_alias {c} h) = given_lem c ∙ ground arith
reason_complete v (open_join_rules {c} {event} there item typed free) =
    given_lem c
    ∙ (let opened = any_opens_complete event item typed free in
        rw there (unfold open_state in ground arith))

-- `_open_room_reason` gives a reason exactly for the requests that open the room in one of four ways:
-- a public visibility, the preset `public_chat`, an alias, or an event of the initial state that sets
-- join rules other than `invite`.
pub open_room_reason_iff : (v : Value) → (is_given (open_room_reason v) ≡ true) ↔ Opens v
open_room_reason_iff v = (reason_sound v, reason_complete v)
