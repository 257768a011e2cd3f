-- ===== src/Guardian/Invites/Decisions.antt =====
-- The verdicts of the callbacks for invites, whatever the rest of Synapse answers or raises.
use synapse_guardian.Prelude.{
  ◌≡◌, refl, inl, inr, Bool, true, false, not, ◌&&◌, ◌||◌, [], ◌∷◌, Option, none, some, arith,
  if◌then◌else◌, Text, codes, text_eq, Bool-cases,
}
use synapse_guardian.Prelude.Result.{ok, err, Result-cases}
use synapse_guardian.Unicode.{Unicode}
use synapse_guardian.Value.{Value, as_text, is_text}
use synapse_guardian.Policy.Rules.{RuleSet, is_protected, evaluate, reason}
use synapse_guardian.Guardian.{
  Setup, World, Guardian, Verdict, rules, not_spam, forbidden, Exec, pure, catch, block,
  fail_closed, closed_for,
}
use synapse_guardian.Guardian.Reasons.{membership_of}
use synapse_guardian.Guardian.Closed.{
  loaded, ready, after_rules, ready_involves, closed_first, closed_second, block_closed,
}
use synapse_guardian.Guardian.Invites.{
  InviteEvent, inbound, outbound, local_invite, user_may_invite, federated_invite,
  federated_between, federated_membership, federated_user_may_invite,
}

module _ ⦃u : Unicode⦄ where
  -- somebody protected is put in touch with somebody that the rules do not allow
  unfoldable pub is_unwanted : RuleSet → Text → Text → Bool
  is_unwanted rs protected stranger =
      is_protected rs protected && not (evaluate rs stranger).allowed

  abbrev pub verdict_if : Bool → Verdict
  verdict_if forbid = if forbid then forbidden else not_spam

  -- an event of type `m.room.member` whose membership is `invite`
  unfoldable pub is_federated_invite : InviteEvent → Bool
  is_federated_invite e = text_eq e.type (codes "m.room.member") && elim (membership_of e.content) [
    | err x ↦ false
    | ok membership ↦ is_text (codes "invite") membership
  ]

  names_unwanted_from : RuleSet → Option Text → Option Text → Bool
  names_unwanted_from rs (some invitee) (some inviter) = is_unwanted rs invitee inviter
  names_unwanted_from rs _ _ = false

  -- the invitee and the sender are texts, and the pair is unwanted
  unfoldable pub names_unwanted : RuleSet → InviteEvent → Bool
  unfolding names_unwanted_from
  names_unwanted rs e = names_unwanted_from rs (as_text e.state_key) (as_text e.sender)

  pub unwanted_protected :
      (rs : RuleSet) (protected stranger : Text)
      → is_unwanted rs protected stranger ≡ true
      → is_protected rs protected ≡ true
  unfolding is_unwanted
  unwanted_protected rs protected stranger h = ground arith

module _ ⦃u : Unicode⦄ (setup : Setup) (world : World) where
  pub invite_after :
      (inviter invitee room_id : Text) (g : Guardian)
      → let rs = loaded setup world g in
        user_may_invite setup world inviter invitee room_id g
        ≡ catch
            (inbound setup world rs inviter invitee room_id
              (outbound setup world rs inviter invitee room_id (pure not_spam)))
            (fail_closed setup world (some inviter ∷ some invitee ∷ []))
            (ready setup world g)
  unfolding user_may_invite local_invite
  invite_after inviter invitee room_id g = unfold ready rules in refl

  pub inbound_lem :
      (rs : RuleSet) (inviter invitee room_id : Text) (next : Exec Verdict)
      → inbound setup world rs inviter invitee room_id next ≡ (
          if is_unwanted rs invitee inviter
          then block setup world
              (codes "invite")
              inviter
              invitee
              (some room_id)
              (reason (evaluate rs inviter))
          else next)
  unfolding inbound is_unwanted
  inbound_lem rs inviter invitee room_id next = refl

  pub outbound_lem :
      (rs : RuleSet) (inviter invitee room_id : Text) (next : Exec Verdict)
      → outbound setup world rs inviter invitee room_id next ≡ (
          if is_unwanted rs inviter invitee
          then block setup world
              (codes "invite-out")
              inviter
              invitee
              (some room_id)
              (reason (evaluate rs invitee))
          else next)
  unfolding outbound is_unwanted
  outbound_lem rs inviter invitee room_id next = refl

module _ ⦃u : Unicode⦄ (setup : Setup) (world : World) (live : setup.config.dry_run ≡ false) where
  -- Outside a dry run, and whether or not the control room can be read, a hook raises or a
  -- background process can be started, an invite between local users is forbidden exactly if the
  -- invitee is protected and the inviter not allowed, or the inviter protected and the invitee not
  -- allowed, by the rules that the callback has loaded. The callback itself never raises.
  pub user_may_invite_lem :
      (inviter invitee room_id : Text) (g : Guardian)
      → (user_may_invite setup world inviter invitee room_id g).0
        ≡ ok (
            verdict_if (
              is_unwanted (loaded setup world g) invitee inviter
              || is_unwanted (loaded setup world g) inviter invitee))
  user_may_invite_lem inviter invitee room_id g =
      let rs = loaded setup world g in
      rw
        (
          invite_after setup world inviter invitee room_id g,
          inbound_lem setup world rs inviter invitee room_id
              (outbound setup world rs inviter invitee room_id (pure not_spam)),
          outbound_lem setup world rs inviter invitee room_id (pure not_spam),
        )
        (elim (Bool-cases (is_unwanted rs invitee inviter)) [
          | inl bad ↦ rw bad (
              block_closed setup world live _ _ _ _ _ _ _ (
                closed_second setup world [] inviter invitee (ready setup world g) (
                  ready_involves setup world g invitee
                    (unwanted_protected rs invitee inviter bad))))
          | inr fine ↦ elim (Bool-cases (is_unwanted rs inviter invitee)) [
            | inl bad ↦
                rw (fine, bad)
                  (block_closed setup world live _ _ _ _ _ _ _ (
                    closed_first setup world (some invitee ∷ []) inviter (ready setup world g) (
                      ready_involves setup world g inviter
                        (unwanted_protected rs inviter invitee bad))))
            | inr fine' ↦ rw (fine, fine') refl
          ]
        ])

  between_lem :
      (e : InviteEvent) (invitee inviter : Option Text) (g : Guardian)
      → (federated_between setup world e invitee inviter g).0
        ≡ ok (verdict_if (names_unwanted_from (loaded setup world g) invitee inviter))
  unfolding federated_between federated_invite names_unwanted_from
  between_lem e (some invitee) (some inviter) g =
      let rs = loaded setup world g in
      rw
        (
          after_rules setup world
              (λ rs. inbound setup world rs inviter invitee e.room_id (pure not_spam)) g,
          inbound_lem setup world rs inviter invitee e.room_id (pure not_spam),
        )
        (elim (Bool-cases (is_unwanted rs invitee inviter)) [
          | inl bad ↦ rw bad (
              block_closed setup world live _ _ _ _ _ _ _ (
                closed_first setup world [] invitee (ready setup world g) (
                  ready_involves setup world g invitee
                    (unwanted_protected rs invitee inviter bad))))
          | inr fine ↦ rw fine refl
        ])
  between_lem e (some invitee) none g = refl
  between_lem e none inviter g = refl

  membership_lem :
      (e : InviteEvent) (membership : Value) (g : Guardian)
      → (federated_membership setup world e (ok membership) g).0
        ≡ ok (
            verdict_if
              (is_text (codes "invite") membership && names_unwanted (loaded setup world g) e))
  unfolding federated_membership names_unwanted
  membership_lem e membership g = elim (Bool-cases (is_text (codes "invite") membership)) [
    | inl invite ↦ rw invite (between_lem e (as_text e.state_key) (as_text e.sender) g)
    | inr other ↦ rw other refl
  ]

  -- Outside a dry run, and whatever the API answers or raises, an event from federation is
  -- forbidden exactly if it is a membership event of an invite, its state key and sender are
  -- texts, and the loaded rules protect the invitee and do not allow the sender. The callback
  -- itself never raises.
  pub federated_user_may_invite_lem :
      (e : InviteEvent) (g : Guardian)
      → (federated_user_may_invite setup world e g).0
        ≡ ok (verdict_if (is_federated_invite e && names_unwanted (loaded setup world g) e))
  unfolding federated_user_may_invite is_federated_invite
  federated_user_may_invite_lem e g = elim (Bool-cases (text_eq e.type (codes "m.room.member"))) [
    | inl member ↦ elim (Result-cases (membership_of e.content)) [
      | inl (membership, read) ↦ rw (member, read) (membership_lem e membership g)
      | inr (x, failed) ↦
          rw (member, failed) (unfold federated_membership fail_closed closed_for in refl)
    ]
    | inr other ↦ rw other refl
  ]
