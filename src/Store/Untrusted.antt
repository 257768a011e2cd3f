-- ===== src/Store/Untrusted.antt =====
-- An untrusted sender cannot change the rules.
use synapse_guardian.Prelude.{
  ◌≡◌, refl, sym, ap, ap₂, ◌∙◌, true, false, List, [], ◌∷◌, ◌++◌, Text, text_eq, text_eq_iff,
  find_first, Bool-cases, inl, inr, false≢true,
}
use synapse_guardian.Unicode.{Unicode}
use synapse_guardian.Matrix.{Event, RoomState, Api, state_at}
use synapse_guardian.Policy.Rules.{build, Entry}
use synapse_guardian.Store.{
  is_our_event_type, kind_of_type, power_levels_type, create_type, authority_of, authority_from,
  room_rules,
}
use synapse_guardian.Store.Reading.{IsTrusted, untrusted-skipped, entries_from-without}

state_at-without :
    (type key : Text) (xs ys : RoomState) (e : Event)
    → text_eq e.type type ≡ false
    → state_at type key (xs ++ e ∷ ys) ≡ state_at type key (xs ++ ys)
unfolding state_at find_first
state_at-without type key [] ys e h = rw h
state_at-without type key (x ∷ xs) ys e h = rw (state_at-without type key xs ys e h)

not-other_type :
    (t other : Text)
    → is_our_event_type t ≡ true
    → is_our_event_type other ≡ false
    → text_eq t other ≡ false
not-other_type t other h n = elim (Bool-cases (text_eq t other)) [
  | inl e ↦ absurd (false≢true (sym n ∙ sym (ap is_our_event_type ((text_eq_iff t other).0 e)) ∙ h))
  | inr ne ↦ ne
]

authority_of-without :
    (xs ys : RoomState) (e : Event)
    → is_our_event_type e.type ≡ true
    → authority_of (xs ++ e ∷ ys) ≡ authority_of (xs ++ ys)
unfolding authority_of
authority_of-without xs ys e h =
    ap₂ authority_from
      (state_at-without power_levels_type [] xs ys e (
        not-other_type e.type power_levels_type h
          (unfold is_our_event_type kind_of_type text_eq in refl)))
      (state_at-without create_type [] xs ys e (
        not-other_type e.type create_type h
          (unfold is_our_event_type kind_of_type text_eq in refl)))

module _ ⦃u : Unicode⦄ where
  -- A rule event whose sender is not trusted by the power levels of the room changes nothing,
  -- wherever it stands in the room's state.
  pub untrusted_event_changes_nothing :
      (api : Api) (xs ys : RoomState) (e : Event)
      → is_our_event_type e.type ≡ true
      → ¬ IsTrusted api (authority_of (xs ++ ys)) e.type e.sender
      → room_rules api (xs ++ e ∷ ys) ≡ room_rules api (xs ++ ys)
  unfolding room_rules
  untrusted_event_changes_nothing api xs ys e ours n =
      rw (authority_of-without xs ys e ours, room_rules)
        (ap (λ (es : List Entry). (build es).0)
          (entries_from-without api (authority_of (xs ++ ys)) xs ys e
            (untrusted-skipped api (authority_of (xs ++ ys)) e n)))
