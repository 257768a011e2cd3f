-- ===== src/Guardian/Rooms/Decisions.antt =====
-- The verdicts of the callbacks that keep a protected user's rooms closed.
use synapse_guardian.Prelude.{
  ◌≡◌, refl, subst, inl, inr, Bool, true, false, not, ◌&&◌, ◌||◌, [], ◌∷◌, Option, none, some,
  if◌then◌else◌, Text, codes, text_eq, text_eq_iff, Bool-cases, is_given,
}
use synapse_guardian.Prelude.Result.{ok}
use synapse_guardian.Unicode.{Unicode}
use synapse_guardian.Value.{Value, is_text}
use synapse_guardian.Policy.Rules.{is_protected}
use synapse_guardian.Guardian.{Setup, World, Guardian, Verdict, not_spam, Exec, pure, fail_closed}
use synapse_guardian.Guardian.Reasons.{join_rule_of, open_room_reason}
use synapse_guardian.Guardian.Closed.{
  loaded, ready, after_rules, ready_involves, Closes, block-Closes, closed_first, catch_closed,
}
use synapse_guardian.Guardian.Invites.{refuse_protected, user_may_send_3pid_invite}
use synapse_guardian.Guardian.Invites.Decisions.{verdict_if}
use synapse_guardian.Guardian.Rooms.{
  opening_kind, refuse_opening, user_may_create_room, user_may_create_room_alias, refuse_state,
  user_may_send_state_event, user_may_publish_room,
}

-- a canonical alias, or a join rule other than `invite`
unfoldable pub may_open : Text → Value → Bool
may_open event_type content =
    text_eq event_type (codes "m.room.canonical_alias")
    || text_eq event_type (codes "m.room.join_rules")
      && not (is_text (codes "invite") (join_rule_of content))

join_rules_no_alias :
    (event_type : Text)
    → text_eq event_type (codes "m.room.join_rules") ≡ true
    → text_eq event_type (codes "m.room.canonical_alias") ≡ false
join_rules_no_alias event_type h =
    rw ((text_eq_iff event_type (codes "m.room.join_rules")).0 h) (unfold text_eq in refl)

opening_kind-may_open :
    (event_type : Text) (content : Value)
    → is_given (opening_kind event_type content) ≡ may_open event_type content
unfolding opening_kind may_open
opening_kind-may_open event_type content =
    elim (Bool-cases (text_eq event_type (codes "m.room.join_rules"))) [
      | inl there ↦
          rw (there, join_rules_no_alias event_type there)
            (elim (Bool-cases (is_text (codes "invite") (join_rule_of content))) [
              | inl closed ↦ rw closed refl
              | inr opened ↦ rw opened refl
            ])
      | inr other ↦
          rw other (elim (Bool-cases (text_eq event_type (codes "m.room.canonical_alias"))) [
            | inl there ↦ rw there refl
            | inr away ↦ rw away refl
          ])
    ]

module _ ⦃u : Unicode⦄ (setup : Setup) (world : World) where
  refuse_lem :
      (user_id : Text) (refusal : Exec Verdict) (g : Guardian)
      → Closes setup world refusal
      → (refuse_protected setup world user_id refusal g).0
        ≡ ok (verdict_if (is_protected (loaded setup world g) user_id))
  unfolding refuse_protected
  refuse_lem user_id refusal g closes =
      let rs = loaded setup world g in
      rw
        (after_rules setup world (λ rs. if is_protected rs user_id then refusal else pure not_spam)
          g)
        (elim (Bool-cases (is_protected rs user_id)) [
          | inl there ↦ rw there (
              catch_closed setup world refusal (fail_closed setup world (some user_id ∷ []))
                (ready setup world g) closes
                (closed_first setup world [] user_id (ready setup world g)
                  (ready_involves setup world g user_id there)))
          | inr away ↦ rw away refl
        ])

  refuse_nothing :
      (user_id : Text) (g : Guardian)
      → (refuse_protected setup world user_id (pure not_spam) g).0 ≡ ok not_spam
  unfolding refuse_protected
  refuse_nothing user_id g =
      rw
        (after_rules setup world
          (λ rs. if is_protected rs user_id then pure not_spam else pure not_spam) g)
        (elim (Bool-cases (is_protected (loaded setup world g) user_id)) [
          | inl there ↦ rw there refl
          | inr away ↦ rw away refl
        ])

module _ ⦃u : Unicode⦄ (setup : Setup) (world : World) (live : setup.config.dry_run ≡ false) where
  -- Outside a dry run, a third-party invite, a room alias and the publishing of a room are each
  -- forbidden exactly to the users that the loaded rules protect, whatever is raised on the way.
  pub protected_users_are_refused :
      (user_id medium address room_id room_alias : Text) (g : Guardian)
      → let verdict = ok (verdict_if (is_protected (loaded setup world g) user_id)) in
        ((user_may_send_3pid_invite setup world user_id medium address room_id g).0 ≡ verdict)
        × ((user_may_create_room_alias setup world user_id room_alias g).0 ≡ verdict)
        × ((user_may_publish_room setup world user_id room_id g).0 ≡ verdict)
  unfolding user_may_send_3pid_invite user_may_create_room_alias user_may_publish_room
  protected_users_are_refused user_id medium address room_id room_alias g = (
    refuse_lem setup world user_id _ g (block-Closes setup world live _ _ _ _ _),
    refuse_lem setup world user_id _ g (block-Closes setup world live _ _ _ _ _),
    refuse_lem setup world user_id _ g (block-Closes setup world live _ _ _ _ _),
  )

  opening_lem :
      (user_id : Text) (why : Option Text) (g : Guardian)
      → (refuse_protected setup world user_id (refuse_opening setup world user_id why) g).0
        ≡ ok (verdict_if (is_given why && is_protected (loaded setup world g) user_id))
  unfolding refuse_opening
  opening_lem user_id none g = refuse_nothing setup world user_id g
  opening_lem user_id (some why) g =
      refuse_lem setup world user_id _ g (block-Closes setup world live _ _ _ _ _)

  -- Outside a dry run, a new room is forbidden exactly if something in the request would open it and
  -- the loaded rules protect its creator, whatever is raised on the way.
  pub user_may_create_room_lem :
      (user_id : Text) (room_config : Value) (g : Guardian)
      → (user_may_create_room setup world user_id room_config g).0
        ≡ ok (
            verdict_if (
              is_given (open_room_reason room_config)
              && is_protected (loaded setup world g) user_id))
  unfolding user_may_create_room
  user_may_create_room_lem user_id room_config g =
      opening_lem user_id (open_room_reason room_config) g

  state_lem :
      (user_id room_id : Text) (kind : Option Text) (g : Guardian)
      → (refuse_state setup world user_id room_id kind g).0
        ≡ ok (verdict_if (is_given kind && is_protected (loaded setup world g) user_id))
  unfolding refuse_state
  state_lem user_id room_id none g = refl
  state_lem user_id room_id (some kind) g =
      refuse_lem setup world user_id _ g (block-Closes setup world live _ _ _ _ _)

  -- Outside a dry run, a state event is forbidden exactly if it is a canonical alias or a join rule
  -- other than `invite`, and the loaded rules protect its sender, whatever is raised on the way.
  pub user_may_send_state_event_lem :
      (user_id room_id event_type state_key : Text) (content : Value) (g : Guardian)
      → (user_may_send_state_event setup world user_id room_id event_type state_key content g).0
        ≡ ok (
            verdict_if (may_open event_type content && is_protected (loaded setup world g) user_id))
  unfolding user_may_send_state_event
  user_may_send_state_event_lem user_id room_id event_type state_key content g =
      subst
        (λ b.
          (refuse_state setup world user_id room_id (opening_kind event_type content) g).0
          ≡ ok (verdict_if (b && is_protected (loaded setup world g) user_id)))
        (opening_kind-may_open event_type content)
        (state_lem user_id room_id (opening_kind event_type content) g)
