-- ===== src/Tests/Publishers.antt =====
-- publish.py and the warm-up, with the rules of the other tests.
use synapse_guardian.Prelude.{
  ◌≡◌, refl, List, true, false, [], ◌∷◌, ◌++◌, none, some, arith, Some, codes, find_first,
}
use synapse_guardian.Unicode.{ascii}
use synapse_guardian.Value.{Value, str}
use synapse_guardian.Matrix.{Event, state_at}
use synapse_guardian.Policy.Rules.{RuleSet}
use synapse_guardian.Config.{known_rooms}
use synapse_guardian.Publish.{
  Room, new_publisher, payload_of, publish, effective_rules_type, prime, published, is_last, send,
  publish_payload,
}
use synapse_guardian.Publish.History.{
  Occasion, publish_each, changes, held_at_first, payloads_writable, publishes_changes,
}
use synapse_guardian.Guardian.{Setup}
use synapse_guardian.Guardian.WarmUp.{Attempt, warm_up, warm_up_once, retry_after}
use synapse_guardian.Guardian.WarmUp.Published.{IsInRoom, held_first, warm_up_publishes}
use synapse_guardian.Tests.Policies.{family}
use synapse_guardian.Tests.Configs.{home_config}

abbrev static : RuleSet
static = home_config.static_rules

abbrev payload : Value
payload = payload_of static family false known_rooms

abbrev writable : Room
writable = record { state = some []; can_send = true }

abbrev unreadable : Room
unreadable = record { state = none; can_send = false }

first_call_sends :
    publish writable static family false known_rooms new_publisher
    ≡ (true, record { last = some payload; primed = true; warned = false }, payload ∷ [])
unfolding publish prime published is_last publish_payload send state_at find_first
first_call_sends = refl

first_call_works : (publish writable static family false known_rooms new_publisher).0 ≡ true
first_call_works = rw first_call_sends refl

abbrev occasion : Room → Occasion
occasion room = record {
  room = room;
  static_rules = static;
  effective_rules = family;
  dry_run = false;
  uninvited_joins = known_rooms;
}

abbrev occasions : List Occasion
occasions = occasion unreadable ∷ occasion writable ∷ occasion writable ∷ []

publishes_changes_example :
    publish_each occasions new_publisher
    ≡ changes (held_at_first occasions) (payloads_writable occasions)
publishes_changes_example = publishes_changes occasions

abbrev effective_event : Event
effective_event = record {
  type = effective_rules_type;
  state_key = [];
  sender = str (codes "@guardian:h.org");
  content = payload;
}

first_call_fails : (publish unreadable static family false known_rooms new_publisher).0 ≡ false
unfolding publish prime published is_last publish_payload send
first_call_fails = refl

abbrev home : Setup
home = record { config = home_config; is_main = true }

abbrev failing : Attempt
failing = record { rules = family; room = unreadable }

abbrev working : Attempt
working = record { rules = family; room = writable }

two_retries :
    (warm_up home 1 (failing ∷ failing ∷ working ∷ []) new_publisher).delays ≡ 10000 ∷ 20000 ∷ []
unfolding warm_up warm_up_once retry_after publish prime published is_last publish_payload send
two_retries = refl

warm_up_publishes_example :
    let w = warm_up home 1 ((failing ∷ failing ∷ []) ++ working ∷ []) new_publisher in
    (w.published ≡ true)
    × Some
        (IsInRoom home (held_first ((failing ∷ failing ∷ []) ++ working ∷ [])) w.sent)
        ((failing ∷ failing ∷ []) ++ working ∷ [])
warm_up_publishes_example =
    warm_up_publishes home (failing ∷ failing ∷ []) [] working (omega arith) refl
