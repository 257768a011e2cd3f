-- ===== src/Guardian/WarmUp.antt =====
-- `_warm_up`: the rules are published shortly after the start, with retries.
pub mod Published
use synapse_guardian.Prelude.{
  ℕ, suc, ◌+◌, ◌*◌, ◌≡◌, ◌≤◌, ◌<◌, refl, inl, inr, Bool, true, false, ◌||◌, List, [], ◌∷◌, ◌++◌,
  Option, none, some, arith, leb, if◌then◌else◌, length, All, Some, ◌⊎◌, ap, sym, ◌∙◌, subst,
  Bool-cases, Option-cases,
}
use synapse_guardian.Policy.Rules.{RuleSet}
use synapse_guardian.Guardian.{Setup}
use synapse_guardian.Publish.{
  Room, Publisher, new_publisher, payload_of, published, prime, is_last, send, publish_payload,
  publish,
}
use synapse_guardian.Publish.Once.{failed, quiet, sent, keeps_primed, primed-prime}
use synapse_guardian.Value.{Value}
use synapse_guardian.Value.Equal.{value_eq}

-- WARM_UP_ATTEMPTS
abbrev pub warm_up_attempts : ℕ
warm_up_attempts = 5

-- WARM_UP_RETRY_MS
abbrev pub warm_up_retry_ms : ℕ
warm_up_retry_ms = 10000

-- What one attempt meets: the rules that are loaded, and the room.
pub record Attempt : Type 0 where
  pub rules : RuleSet
  pub room : Room

-- What a warm-up comes to: whether the last attempt published, the delays before the retries, the
-- contents of the events that it sends, and the publisher.
pub record WarmedUp : Type 0 where
  pub published : Bool
  pub delays : List ℕ
  pub sent : List Value
  pub publisher : Publisher

-- the delay before the next attempt, if there is one
unfoldable pub retry_after : ℕ → Bool → Option ℕ
retry_after attempt published =
    if published || leb warm_up_attempts attempt then none else some (warm_up_retry_ms * attempt)

-- what an attempt has sent, before what comes after it
abbrev pub then_later : List Value → WarmedUp → WarmedUp
then_later contents later = record later { sent = contents ++ later.sent }

abbrev pub delayed : Option ℕ → Bool × Publisher × List Value → WarmedUp → WarmedUp
delayed none (published, p, contents) later = record {
  published = published;
  delays = [];
  sent = contents;
  publisher = p;
}
delayed (some delay) (published, p, contents) later =
    then_later contents (record later { delays = delay ∷ later.delays })

module _ (setup : Setup) where
  unfoldable pub warm_up_once : Attempt → Publisher → Bool × Publisher × List Value
  warm_up_once a p =
      publish a.room setup.config.static_rules a.rules setup.config.dry_run
        setup.config.uninvited_joins p

  -- `_warm_up` with its retries, where the list tells what the attempts meet
  unfoldable pub warm_up : ℕ → List Attempt → Publisher → WarmedUp
  warm_up attempt [] p = record { published = false; delays = []; sent = []; publisher = p }
  warm_up attempt (a ∷ attempts) p =
      let once = warm_up_once a p in
      delayed (retry_after attempt once.0) once (warm_up (suc attempt) attempts once.1)

  -- a room that can be written is published in
  pub once_lem :
      (a : Attempt) (p : Publisher) → a.room.can_send ≡ true → (warm_up_once a p).0 ≡ true
  unfolding warm_up_once publish publish_payload send
  once_lem a p can = ground arith

  pub stops : (attempt : ℕ) → retry_after attempt true ≡ none
  unfolding retry_after
  stops attempt = refl

  pub retries :
      (attempt : ℕ) → attempt < 5 → retry_after attempt false ≡ some (warm_up_retry_ms * attempt)
  unfolding retry_after
  retries attempt h = ground arith

  retry_bound :
      (attempt delay : ℕ) (published : Bool)
      → retry_after attempt published ≡ some delay
      → (attempt < 5) × (delay ≤ 40000)
  unfolding retry_after
  retry_bound attempt delay published h = ground arith

  delays_from :
      (attempt : ℕ) (attempts : List Attempt) (p : Publisher)
      → attempt ≤ 5
      → (length (warm_up attempt attempts p).delays + attempt ≤ 5)
        × All (λ d. d ≤ 40000) (warm_up attempt attempts p).delays
  unfolding warm_up
  delays_from attempt [] p h = (omega arith, tt)
  delays_from attempt (a ∷ attempts) p h =
      elim (Option-cases (retry_after attempt (warm_up_once a p).0)) [
        | inl stop ↦ rw (stop, warm_up) (omega arith, tt)
        | inr (delay, go) ↦
            let (early, short) = retry_bound attempt delay (warm_up_once a p).0 go in
            let (few, all_short) =
              delays_from (suc attempt) attempts (warm_up_once a p).1 (omega arith) in
            rw (go, warm_up) (omega arith, (short, all_short))
      ]

  -- However the attempts go, there are at most four retries after the first attempt, each after at
  -- most 40 seconds.
  pub warm_up_delays_le :
      (attempts : List Attempt) (p : Publisher)
      → (length (warm_up 1 attempts p).delays ≤ 4)
        × All (λ d. d ≤ 40000) (warm_up 1 attempts p).delays
  warm_up_delays_le attempts p =
      let (few, short) = delays_from 1 attempts p (omega arith) in (omega arith, short)
