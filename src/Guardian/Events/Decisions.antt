-- ===== src/Guardian/Events/Decisions.antt =====
-- The verdict of `check_event_allowed`.
use synapse_guardian.Prelude.Steps.{continue}
use synapse_guardian.Prelude.{
  ◌≡◌, refl, sym, ap, ◌∙◌, subst, inl, inr, Bool, true, false, ◌&&◌, ◌||◌, not, [], ◌∷◌, Option,
  none, some, Text, codes, text_eq, text_eq_iff, if◌then◌else◌, Bool-cases,
}
use synapse_guardian.Prelude.Result.{Result, ok, err}
use synapse_guardian.Unicode.{Unicode}
use synapse_guardian.Value.{
  Value, null, bool, int, float, str, arr, obj, other, get, is_text, as_text,
}
use synapse_guardian.Policy.Rules.{RuleSet, is_protected}
use synapse_guardian.Guardian.{Setup, World, Guardian, Raised, catch, fail_closed, is_involved}
use synapse_guardian.Guardian.Closed.{loaded, ready, after_rules, ready_involves, block-Closes}
use synapse_guardian.Guardian.Invites.{InviteEvent}
use synapse_guardian.Guardian.Invites.Decisions.{verdict_if}
use synapse_guardian.Guardian.Joins.Decisions.{Decides, decided, is_objection}
use synapse_guardian.Guardian.Joins.{lift}
use synapse_guardian.Guardian.Events.{
  content_get, refused_kind, refuse_event, check_sender, check_from, check_event_allowed,
}

-- a membership event that knocks, or whose content is no mapping
unfoldable pub knocks : Value → Bool
knocks (obj content) = is_text (codes "knock") (get (codes "membership") content)
knocks _ = true

-- a join rule other than `invite`, or a content that is no mapping
unfoldable pub opens_joins : Value → Bool
opens_joins (obj content) = not (is_text (codes "invite") (get (codes "join_rule") content))
opens_joins _ = true

-- the events that a protected user may not send
unfoldable pub is_vetoed : InviteEvent → Bool
is_vetoed e =
    text_eq e.type (codes "m.room.canonical_alias")
    || text_eq e.type (codes "m.room.member") && knocks e.content
    || text_eq e.type (codes "m.room.join_rules") && opens_joins e.content

knock_lem :
    (content : Value)
    → is_objection (elim (content_get (codes "membership") content) [
      | err x ↦ err x
      | ok membership ↦
          ok (if is_text (codes "knock") membership then some (codes "knock") else none)
    ])
      ≡ knocks content
unfolding is_objection content_get knocks
knock_lem (obj content) =
    elim (Bool-cases (is_text (codes "knock") (get (codes "membership") content))) [
      | inl there ↦ rw there refl
      | inr away ↦ rw away refl
    ]
knock_lem null = refl
knock_lem (bool b) = refl
knock_lem (int n) = refl
knock_lem (float n) = refl
knock_lem (str t) = refl
knock_lem (arr items) = refl
knock_lem other = refl

join_lem :
    (content : Value)
    → is_objection (elim (content_get (codes "join_rule") content) [
      | err x ↦ err x
      | ok join_rule ↦
          ok (if is_text (codes "invite") join_rule then none else some (codes "join_rules"))
    ])
      ≡ opens_joins content
unfolding is_objection content_get opens_joins
join_lem (obj content) =
    elim (Bool-cases (is_text (codes "invite") (get (codes "join_rule") content))) [
      | inl there ↦ rw there refl
      | inr away ↦ rw away refl
    ]
join_lem null = refl
join_lem (bool b) = refl
join_lem (int n) = refl
join_lem (float n) = refl
join_lem (str t) = refl
join_lem (arr items) = refl
join_lem other = refl

apart : (type a b : Text) → text_eq type a ≡ true → text_eq a b ≡ false → text_eq type b ≡ false
apart type a b h differ = rw ((text_eq_iff type a).0 h) differ

or_false : (b : Bool) → (b || false) ≡ b
or_false true = refl
or_false false = refl

refused-vetoed : (e : InviteEvent) → is_objection (refused_kind e) ≡ is_vetoed e
unfolding refused_kind is_vetoed
refused-vetoed e =
    let member = codes "m.room.member" in
    let joins = codes "m.room.join_rules" in
    let alias = codes "m.room.canonical_alias" in
    elim (Bool-cases (text_eq e.type member)) [
      | inl there ↦
          rw
            (
              there,
              apart e.type member alias there (unfold text_eq in refl),
              apart e.type member joins there (unfold text_eq in refl),
            )
            (knock_lem e.content ∙ sym (or_false (knocks e.content)))
      | inr away_one ↦ elim (Bool-cases (text_eq e.type joins)) [
        | inl there ↦
            rw (away_one, there, apart e.type joins alias there (unfold text_eq in refl))
              (join_lem e.content)
        | inr neither ↦
            rw (away_one, neither)
              (elim (Bool-cases (text_eq e.type alias)) [
                | inl there ↦ rw there (unfold is_objection in refl)
                | inr away ↦ rw away (unfold is_objection in refl)
              ])
      ]
    ]

module _ ⦃u : Unicode⦄ (world : World) where
  -- the sender is a user of this server that the rules protect
  unfoldable pub is_local_protected : RuleSet → Option Text → Bool
  is_local_protected rs none = false
  is_local_protected rs (some sender) = world.api.is_mine sender && is_protected rs sender

module _ ⦃u : Unicode⦄ (setup : Setup) (world : World) (live : setup.config.dry_run ≡ false) where
  event-Decides :
      (e : InviteEvent) (sender : Text) (r : Result Raised (Option Text))
      → Decides setup world live
          (λ g. continue (lift r g) (refuse_event setup world e sender))
          (is_objection r)
  unfolding Decides is_objection refuse_event
  event-Decides e sender (ok none) = λ g. refl
  event-Decides e sender (ok (some kind)) = block-Closes setup world live _ _ _ _ _
  event-Decides e sender (err x) = λ g. inr (x, refl)

  sender_lem :
      (e : InviteEvent) (sender : Text) (rs : RuleSet) (g : Guardian)
      → (is_protected rs sender ≡ true → is_involved setup world g.store sender ≡ true)
      → (catch
          (check_sender setup world e sender rs)
          (fail_closed setup world (some sender ∷ []))
          g).0
        ≡ ok (verdict_if (is_protected rs sender && is_objection (refused_kind e)))
  unfolding check_sender
  sender_lem e sender rs g involves = elim (Bool-cases (is_protected rs sender)) [
    | inl there ↦ rw there (
        decided setup world live _ _ sender g (event-Decides e sender (refused_kind e))
          (involves there))
    | inr away ↦ rw away refl
  ]

  from_lem :
      (e : InviteEvent) (sender : Option Text) (g : Guardian)
      → (check_from setup world e sender g).0
        ≡ ok (
            verdict_if (
              is_local_protected world (loaded setup world g) sender
              && is_objection (refused_kind e)))
  unfolding check_from is_local_protected
  from_lem e none g = refl
  from_lem e (some sender) g = elim (Bool-cases (world.api.is_mine sender)) [
    | inl mine ↦
        let rs = loaded setup world g in
        subst
          (λ b.
            (check_from setup world e (some sender) g).0
            ≡ ok (verdict_if ((b && is_protected rs sender) && is_objection (refused_kind e))))
          (sym mine)
          (unfold check_from in
            rw (mine, after_rules setup world (check_sender setup world e sender) g)
              (sender_lem e sender rs (ready setup world g) (ready_involves setup world g sender)))
    | inr remote ↦ rw remote refl
  ]

  -- Outside a dry run, an event is vetoed exactly if its sender is a user of this server that the
  -- loaded rules protect, and it is a knock, a join rule other than `invite`, a canonical alias,
  -- or a membership or join rules event whose content is no mapping. The callback itself never
  -- raises.
  pub check_event_allowed_lem :
      (e : InviteEvent) (g : Guardian)
      → (check_event_allowed setup world e g).0
        ≡ ok (
            verdict_if
              (is_local_protected world (loaded setup world g) (as_text e.sender) && is_vetoed e))
  unfolding check_event_allowed
  check_event_allowed_lem e g =
      from_lem e (as_text e.sender) g
      ∙ ap
          (λ b.
            ok (
              verdict_if (is_local_protected world (loaded setup world g) (as_text e.sender) && b)))
          (refused-vetoed e)
