-- ===== src/Bot/Checking.antt =====
-- The plugin's `check` and the rules that the module enforces.
use synapse_guardian.Prelude.{
  some-injective, ◌≡◌, refl, sym, inl, inr, Bool, true, false, [], Option, none, some, Text, codes,
  text_eq, text_eq_iff, All, ◌∙◌, false≢true, ap, Option-cases, Bool-cases,
}
use synapse_guardian.Prelude.Result.{ok}
use synapse_guardian.Unicode.{Unicode}
use synapse_guardian.Value.{null, Value, obj, Fields, end, field, get, lookup}
use synapse_guardian.Matrix.{RoomState, state_at}
use synapse_guardian.Policy.Patterns.{is_user_id}
use synapse_guardian.Policy.Rules.{RuleSet, evaluate}
use synapse_guardian.Policy.Building.{IsWellFormed}
use synapse_guardian.Policy.Payload.{to_payload}
use synapse_guardian.Policy.Payload.RoundTrip.{IsStable, from_payload-to_payload}
use synapse_guardian.Config.{JoinPolicy}
use synapse_guardian.Publish.{
  effective_rules_type, payload_of, payload_in, content_payload, without,
}
use synapse_guardian.Bot.{content_dict}
use synapse_guardian.Bot.Links.{Runtime}
use synapse_guardian.Bot.Listing.{published_payload}
use synapse_guardian.Bot.Chat.{Client, Settings, Message, Chat, verdict, said}
use synapse_guardian.Bot.Requests.{checked_rules, check_state, check_user}
use synapse_guardian.Bot.Commands.{in_control_room, resolve, check}
use synapse_guardian.Bot.Commands.Steps.{IsFine, read_fine}

-- another key is found as before
lookup-without :
    (key other : Text) (m : Fields)
    → text_eq key other ≡ false
    → lookup key (without other m) ≡ lookup key m
unfolding lookup without
lookup-without key other end apart = refl
lookup-without key other (field k v rest) apart =
    let later = lookup-without key other rest apart in
    elim (Bool-cases (text_eq k other)) [
      | inr kept ↦ elim (Bool-cases (text_eq k key)) [
        | inl here ↦ rw (kept, here) refl
        | inr there ↦ rw (kept, there) later
      ]
      | inl dropped ↦ elim (Bool-cases (text_eq k key)) [
        | inl here ↦
            absurd (false≢true (sym apart ∙ (rw (sym ((text_eq_iff k key).0 here)) dropped)))
        | inr there ↦ rw (dropped, there) later
      ]
    ]

effective_in : Value → Value
effective_in (obj m) = get (codes "effective") m
effective_in _ = null

same_effective :
    (m : Fields) → get (codes "effective") m ≡ effective_in (obj (without (codes "updated_ts") m))
unfolding effective_in get
same_effective m =
    rw (lookup-without (codes "effective") (codes "updated_ts") m (unfold text_eq in refl), get)
      refl

of_payload :
    (static effective : RuleSet) (dry_run : Bool) (policy : JoinPolicy)
    → effective_in (payload_of static effective dry_run policy) ≡ to_payload effective
unfolding effective_in payload_of get lookup text_eq
of_payload static effective dry_run policy = refl

-- the rules in the payload that the module reads in the room
payload_rules :
    (v : Value) (static effective : RuleSet) (dry_run : Bool) (policy : JoinPolicy)
    → content_payload v ≡ some (payload_of static effective dry_run policy)
    → (content : Fields) × (elim (content_dict v) as (λ x. Option Fields) [
      | end ↦ none
      | field k w rest ↦ some (field k w rest)
    ]
        ≡ some content)
      × (get (codes "effective") content ≡ to_payload effective)
unfolding content_payload content_dict
payload_rules (obj (field k w rest)) static effective dry_run policy h = (
  field k w rest,
  refl,
  same_effective (field k w rest)
      ∙ ap effective_in (some-injective h)
      ∙ of_payload static effective dry_run policy,
)
payload_rules _ static effective dry_run policy h = absurd (cc)

module _ ⦃u : Unicode⦄ where
  -- The rules that `check` evaluates, in a room that holds what the publisher sends for some rules: those
  -- rules.
  checked_lem :
      (state : RoomState) (static effective : RuleSet) (dry_run : Bool) (policy : JoinPolicy)
      → payload_in state ≡ some (payload_of static effective dry_run policy)
      → IsWellFormed effective
      → All IsStable effective.protected_users
      → checked_rules state ≡ (effective, true)
  unfolding checked_rules payload_in published_payload
  checked_lem state static effective dry_run policy there w s =
      elim (Option-cases (state_at effective_rules_type [] state)) [
        | inl absent ↦ absurd (cc (rw (absent, payload_in) at there))
        | inr (e, found) ↦
            let (content, nonempty, rules) =
              payload_rules e.content static effective dry_run policy
                (rw (found, payload_in) at there) in
            let published : published_payload state ≡ some content =
              rw (found, published_payload) nonempty in
            rw (published, checked_rules, rules, from_payload-to_payload effective w s) refl
      ]

  -- In a room that holds what the publisher sends for some rules, `check` answers with the decision of
  -- those rules, and says that they are the rules the module has loaded. The rules are well-formed, and
  -- their protected users are stored as `from_payload` stores them.
  pub check_agrees :
      (client : Client) (settings : Settings) (evt : Message) (d : Runtime) (arg : Text) (c : Chat)
      (static effective : RuleSet) (dry_run : Bool) (policy : JoinPolicy)
      → IsFine client
      → in_control_room client settings evt ≡ true
      → is_user_id (resolve evt d arg) ≡ true
      → payload_in c.state ≡ some (payload_of static effective dry_run policy)
      → IsWellFormed effective
      → All IsStable effective.protected_users
      → check client settings evt d arg c ≡ (
        ok tt,
        said (verdict (resolve evt d arg) (evaluate effective (resolve evt d arg)) true) c,
      )
  unfolding check check_user check_state
  check_agrees client settings evt d arg c static effective dry_run policy fine here user there w
        s =
      rw
        (
          here,
          user,
          check_user,
          read_fine client fine c,
          checked_lem c.state static effective dry_run policy there w s,
        )
        refl
