-- ===== src/Store/Reading.antt =====
-- Which events of the control room become rules.
use synapse_guardian.Prelude.{
  some-injective, ◌≡◌, refl, sym, ap, ◌∙◌, ◌↔◌, ◌⊎◌, inl, inr, true, [], ◌∷◌, ◌++◌, none, some,
  arith, Text, Some, Option-cases,
}
use synapse_guardian.Unicode.{Unicode}
use synapse_guardian.Value.Int.{ℤ, ◌≤ℤ◌, leb_ℤ}
use synapse_guardian.Value.{Value, null, str, Fields}
use synapse_guardian.Matrix.{Event, RoomState, Api}
use synapse_guardian.Policy.Rules.{Entry}
use synapse_guardian.Store.{
  kind_of_type, Authority, refuse, sender_power, power_of, needed_for, entity_of, active_content,
  entry_of, entries_from, prepend,
}

le→leb_ℤ : (a b : ℤ) → a ≤ℤ b → leb_ℤ a b ≡ true
le→leb_ℤ a b h = ground arith

leb_ℤ→le : (a b : ℤ) → leb_ℤ a b ≡ true → a ≤ℤ b
leb_ℤ→le a b h = ground arith

module _ ⦃u : Unicode⦄ (api : Api) (a : Authority) where
  -- The sender is a local user who is a server admin, or has the power that the room asks for.
  pub record IsTrusted (event_type : Text) (v : Value) : Type 0 where
    pub sender : Text
    pub sent_by : v ≡ str sender
    pub is_local : api.is_mine sender ≡ true
    pub may_send :
        (api.is_user_admin sender ≡ some true)
        ⊎ ((a.readable ≡ true) × (needed_for a event_type ≤ℤ power_of a sender))

  trusted :
      (event_type : Text) (v : Value)
      → refuse (sender_power api a v) event_type a ≡ none
      → IsTrusted event_type v
  unfolding refuse sender_power
  trusted event_type (str sender) h = record {
    sender = sender;
    sent_by = refl;
    is_local = ground arith;
    may_send = ground arith;
  }
  trusted event_type null h = absurd (ground arith)
  trusted event_type _ h = absurd (ground arith)

  refuse-trusted :
      (event_type : Text) (v : Value)
      → IsTrusted event_type v
      → refuse (sender_power api a v) event_type a ≡ none
  unfolding refuse sender_power
  refuse-trusted event_type v t = rw t.sent_by (passes t.may_send)
    where
      passes :
          (api.is_user_admin t.sender ≡ some true)
            ⊎ ((a.readable ≡ true) × (needed_for a event_type ≤ℤ power_of a t.sender))
          → refuse (sender_power api a (str t.sender)) event_type a ≡ none
      passes (inl admin) = ground (arith, t.is_local)
      passes (inr (readable, enough)) = ground (arith, t.is_local)

  -- The event grants the entry.
  pub record Grants (entry : Entry) (e : Event) : Type 0 where
    pub of_kind : kind_of_type e.type ≡ some entry.0
    pub content : Fields
    pub active : active_content e.content ≡ some content
    pub names : entity_of e content ≡ some entry.1
    pub trusted_sender : IsTrusted e.type e.sender

  entry_of→Grants : (entry : Entry) (e : Event) → entry_of api a e ≡ some entry → Grants entry e
  unfolding entry_of
  entry_of→Grants entry e h = elim (Option-cases (active_content e.content)) [
    | inl empty ↦ absurd (ground arith)
    | inr (content, active) ↦ record {
      of_kind = ground arith;
      content = content;
      active = active;
      names = ground arith;
      trusted_sender = trusted e.type e.sender (ground arith);
    }
  ]

  Grants→entry_of : (entry : Entry) (e : Event) → Grants entry e → entry_of api a e ≡ some entry
  unfolding entry_of
  Grants→entry_of entry e g =
      ground (arith, g.of_kind, g.active, g.names, refuse-trusted e.type e.sender g.trusted_sender)

  -- An entry is read from the control room exactly when an event of its kind names it whose content
  -- is not empty and whose sender is a local user that is a server admin or has, in power levels
  -- that can be read, the power to send such an event.
  pub entries_from_iff :
      (entry : Entry) (state : RoomState)
      → Some (λ x. x ≡ entry) (entries_from api a state) ↔ Some (Grants entry) state
  unfolding entries_from
  entries_from_iff entry [] = (λ h. h, λ h. h)
  entries_from_iff entry (e ∷ state) =
      let ih = entries_from_iff entry state in
      elim (Option-cases (entry_of api a e)) [
        | inl skipped ↦
            rw (skipped, entries_from)
              (
                λ h. inr (ih.0 h),
                λ h. elim h [
                  | inl g ↦ absurd (ground (arith, Grants→entry_of entry e g))
                  | inr later ↦ ih.1 later
                ],
              )
        | inr (read, is_read) ↦
            rw (is_read, entries_from)
              (
                λ h. elim h [
                  | inl p ↦ inl (entry_of→Grants entry e (is_read ∙ ap some p))
                  | inr later ↦ inr (ih.0 later)
                ],
                λ h. elim h [
                  | inl g ↦ inl (some-injective (sym is_read ∙ Grants→entry_of entry e g))
                  | inr later ↦ inr (ih.1 later)
                ],
              )
      ]

  pub untrusted-skipped : (e : Event) → ¬ IsTrusted e.type e.sender → entry_of api a e ≡ none
  untrusted-skipped e n = elim (Option-cases (entry_of api a e)) [
    | inl skipped ↦ skipped
    | inr (read, is_read) ↦ absurd (n (entry_of→Grants read e is_read).trusted_sender)
  ]

  pub entries_from-without :
      (xs ys : RoomState) (e : Event)
      → entry_of api a e ≡ none
      → entries_from api a (xs ++ e ∷ ys) ≡ entries_from api a (xs ++ ys)
  unfolding entries_from
  entries_from-without [] ys e h = rw (h, entries_from)
  entries_from-without (x ∷ xs) ys e h =
      ap (prepend (entry_of api a x)) (entries_from-without xs ys e h)
