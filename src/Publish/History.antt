-- ===== src/Publish/History.antt =====
-- What a publisher sends over a history of calls.
use synapse_guardian.Prelude.{
  ◌≡◌, refl, ap, ◌∙◌, inl, inr, Bool, true, false, List, [], ◌∷◌, ◌++◌, Option, none, some, map,
  keep, Bool-cases, if◌then◌else◌,
}
use synapse_guardian.Value.{Value}
use synapse_guardian.Policy.Rules.{RuleSet}
use synapse_guardian.Config.{JoinPolicy}
use synapse_guardian.Publish.{
  Room, Publisher, new_publisher, payload_of, published, prime, is_last, send, publish_payload,
  publish,
}
use synapse_guardian.Publish.Once.{quiet, sent, keeps_primed, primed-prime}

-- one call of `publish`, with what the API answers to it
pub record Occasion : Type 0 where
  pub room : Room
  pub static_rules : RuleSet
  pub effective_rules : RuleSet
  pub dry_run : Bool
  pub uninvited_joins : JoinPolicy

abbrev pub payload_at : Occasion → Value
payload_at o = payload_of o.static_rules o.effective_rules o.dry_run o.uninvited_joins

abbrev pub publish_at : Occasion → Publisher → Bool × Publisher × List Value
publish_at o = publish o.room o.static_rules o.effective_rules o.dry_run o.uninvited_joins

-- the contents of all events that are sent
unfoldable pub publish_each : List Occasion → Publisher → List Value
publish_each [] p = []
publish_each (o ∷ os) p =
    let (worked, p', contents) = publish_at o p in contents ++ publish_each os p'

-- the values that differ from the one before them, the first from a value that may be given
unfoldable pub changes : Option Value → List Value → List Value
changes last [] = []
changes last (v ∷ vs) = elim (is_last last v) [
  | true ↦ changes last vs
  | false ↦ v ∷ changes (some v) vs
]

-- what the room holds at the first call, as far as it can be read
unfoldable pub held_at_first : List Occasion → Option Value
held_at_first [] = none
held_at_first (o ∷ os) = published o.room

abbrev writable : List Occasion → List Occasion
writable = keep (λ (o : Occasion). o.room.can_send)

abbrev pub payloads_writable : List Occasion → List Value
payloads_writable os = map payload_at (writable os)

cannot_send :
    (room : Room) (payload : Value) (p : Publisher)
    → room.can_send ≡ false
    → ((publish_payload room payload p).1.last ≡ p.last) × ((publish_payload room payload p).2 ≡ [])
unfolding publish_payload send
cannot_send room payload p cannot = elim (Bool-cases (is_last p.last payload)) [
  | inl there ↦ rw there (refl, refl)
  | inr new ↦ rw (new, cannot) (refl, refl)
]

writable_first :
    (o : Occasion) (os : List Occasion)
    → (o.room.can_send ≡ true → payloads_writable (o ∷ os) ≡ payload_at o ∷ payloads_writable os)
      × (o.room.can_send ≡ false → payloads_writable (o ∷ os) ≡ payloads_writable os)
unfolding keep
writable_first o os = (
  λ can. ap (λ b. map payload_at (if b then o ∷ writable os else writable os)) can,
  λ cannot. ap (λ b. map payload_at (if b then o ∷ writable os else writable os)) cannot,
)

changes_first :
    (last : Option Value) (v : Value) (vs : List Value)
    → (is_last last v ≡ true → changes last (v ∷ vs) ≡ changes last vs)
      × (is_last last v ≡ false → changes last (v ∷ vs) ≡ v ∷ changes (some v) vs)
unfolding changes
changes_first last v vs = (λ there. rw (there, changes) refl, λ new. rw (new, changes) refl)

changes_after :
    (os : List Occasion) (p : Publisher)
    → p.primed ≡ true
    → publish_each os p ≡ changes p.last (payloads_writable os)
unfolding publish_each publish
changes_after [] p h = unfold changes keep in refl
changes_after (o ∷ os) p h =
    let payload = payload_at o in
    let later =
      changes_after os (publish_payload o.room payload p).1 (keeps_primed payload o.room p h) in
    let here = primed-prime o.room p h in
    let (listed, unlisted) = writable_first o os in
    let (kept, changed) = changes_first p.last payload (payloads_writable os) in
    elim (Bool-cases o.room.can_send) [
      | inr cannot ↦
          let (same, nothing) = cannot_send o.room payload p cannot in
          rw (here, nothing, unlisted cannot)
            (later ∙ ap (λ last. changes last (payloads_writable os)) same)
      | inl can ↦ elim (Bool-cases (is_last p.last payload)) [
        | inl there ↦
            let silent = quiet payload o.room p there in
            rw (here, silent, listed can, kept there) (rw silent at later)
        | inr new ↦
            let told = sent payload o.room p new can in
            rw (here, told, listed can, changed new) (ap (λ vs. payload ∷ vs) (rw told at later))
      ]
    ]

-- Over any history of calls from the start, whatever the room answers, the events that are sent are the
-- changes among the payloads of the calls at which the room can be written, the first against what the
-- room holds at the first call: a payload is sent unless it is equal to the one before it.
pub publishes_changes :
    (os : List Occasion)
    → publish_each os new_publisher ≡ changes (held_at_first os) (payloads_writable os)
unfolding publish_each prime published held_at_first publish
publishes_changes [] = unfold changes keep in refl
publishes_changes (o ∷ os) =
    changes_after (o ∷ os) (record { last = published o.room; primed = true; warned = false }) refl
