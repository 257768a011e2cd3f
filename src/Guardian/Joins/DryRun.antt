-- ===== src/Guardian/Joins/DryRun.antt =====
-- Joins in a dry run.
use synapse_guardian.Prelude.Steps.{continue}
use synapse_guardian.Prelude.{
  ◌≡◌, refl, inl, inr, Bool, true, false, not, ◌&&◌, [], ◌∷◌, Option, none, some, Text, Bool-cases,
}
use synapse_guardian.Prelude.Result.{Result, ok, err}
use synapse_guardian.Unicode.{Unicode}
use synapse_guardian.Value.{as_text}
use synapse_guardian.Policy.Rules.{RuleSet, is_protected, evaluate}
use synapse_guardian.Config.{JoinPolicy, deny, known_rooms}
use synapse_guardian.Guardian.{
  Setup, World, Lookup, unavailable, raises, found, Guardian, Verdict, not_spam, forbidden, Raised,
  Exec, has_notifier, handle, start, block, fail_closed,
}
use synapse_guardian.Guardian.Reasons.{known_room_reason}
use synapse_guardian.Guardian.Closed.{loaded, ready, after_rules, ready_involves, closed_first}
use synapse_guardian.Guardian.Invites.Decisions.{verdict_if}
use synapse_guardian.Guardian.Joins.{
  lift, inviter_found, inviter, clear_invite, vetted_join, invited_join_verdict, known_join,
  join_under, join_by, user_may_join_room,
}

-- looking at the room raises, under a policy that looks
unfoldable pub fails_under : JoinPolicy → Result Raised (Option Text) → Bool
fails_under known_rooms (err x) = true
fails_under _ _ = false

module _ ⦃u : Unicode⦄ (setup : Setup) (world : World) (dry : setup.config.dry_run ≡ true)
    (can : world.can_start ≡ true) where
  dry_block :
      (kind actor target : Text) (room_id : Option Text) (why : Text) (h : Exec Verdict)
      (g : Guardian)
      → (handle (block setup world kind actor target room_id why g) h).0 ≡ ok not_spam
  unfolding block start
  dry_block kind actor target room_id why h g = elim (Bool-cases (has_notifier setup)) [
    | inl told ↦ rw (told, can, dry) refl
    | inr untold ↦ rw (untold, dry) refl
  ]

  dry_vetted :
      (rs : RuleSet) (user_id room_id : Text) (sender : Option Text) (h : Exec Verdict)
      (g : Guardian)
      → (handle (vetted_join setup world rs user_id room_id sender g) h).0 ≡ ok not_spam
  unfolding vetted_join block start clear_invite
  dry_vetted rs user_id room_id none h g = refl
  dry_vetted rs user_id room_id (some sender) h g = elim (Bool-cases (evaluate rs sender).allowed) [
    | inl allowed ↦ rw allowed refl
    | inr banned ↦ elim (Bool-cases (has_notifier setup)) [
      | inl told ↦ rw (banned, told, can, dry) refl
      | inr untold ↦ rw (banned, untold, dry) refl
    ]
  ]

  dry_invited :
      (rs : RuleSet) (user_id room_id : Text) (l : Lookup) (h : Exec Verdict) (g : Guardian)
      → (handle (continue (inviter_found l g) (vetted_join setup world rs user_id room_id)) h).0
        ≡ ok not_spam
  unfolding inviter_found
  dry_invited rs user_id room_id unavailable h g = dry_vetted rs user_id room_id none h _
  dry_invited rs user_id room_id raises h g = dry_vetted rs user_id room_id none h _
  dry_invited rs user_id room_id (found sender) h g =
      dry_vetted rs user_id room_id (as_text sender) h g

  dry_known :
      (user_id room_id : Text) (r : Result Raised (Option Text)) (h : Exec Verdict) (g : Guardian)
      → (h g).0 ≡ ok forbidden
      → (handle (continue (lift r g) (known_join setup world user_id room_id)) h).0
        ≡ ok (verdict_if (fails_under known_rooms r))
  unfolding known_join fails_under
  dry_known user_id room_id (ok none) h g closed = refl
  dry_known user_id room_id (ok (some why)) h g closed = dry_block _ _ _ _ _ h g
  dry_known user_id room_id (err x) h g closed = closed

  dry_under :
      (policy : JoinPolicy) (rs : RuleSet) (user_id room_id : Text) (h : Exec Verdict)
      (g : Guardian)
      → (h g).0 ≡ ok forbidden
      → (handle (join_under setup world policy rs user_id room_id g) h).0
        ≡ ok (verdict_if (fails_under policy (known_room_reason world.api rs user_id room_id)))
  unfolding join_under
  dry_under deny rs user_id room_id h g closed = unfold fails_under in dry_block _ _ _ _ _ h g
  dry_under known_rooms rs user_id room_id h g closed =
      dry_known user_id room_id (known_room_reason world.api rs user_id room_id) h g closed

  dry_join_by :
      (rs : RuleSet) (user_id room_id : Text) (is_invited : Bool) (h : Exec Verdict) (g : Guardian)
      → (is_protected rs user_id ≡ true → (h g).0 ≡ ok forbidden)
      → (handle (join_by setup world rs user_id room_id is_invited g) h).0
        ≡ ok (
            verdict_if (
              is_protected rs user_id
              && (not is_invited
                  && fails_under setup.config.uninvited_joins
                      (known_room_reason world.api rs user_id room_id))))
  unfolding join_by
  dry_join_by rs user_id room_id true h g closes = elim (Bool-cases (is_protected rs user_id)) [
    | inl there ↦ rw there (
        unfold invited_join_verdict inviter in
        dry_invited rs user_id room_id (world.inviter_of user_id room_id) h g)
    | inr away ↦ rw away refl
  ]
  dry_join_by rs user_id room_id false h g closes = elim (Bool-cases (is_protected rs user_id)) [
    | inl there ↦
        rw there (dry_under setup.config.uninvited_joins rs user_id room_id h g (closes there))
    | inr away ↦ rw away refl
  ]

  -- In a dry run in which background processes can be started, a join is forbidden exactly if the
  -- loaded rules protect the user, who is not invited, and the policy is `known_rooms` and the look
  -- at the room's members raises.
  pub dry_run_forbids_joins_on_error :
      (user_id room_id : Text) (is_invited : Bool) (g : Guardian)
      → let rs = loaded setup world g in
        (user_may_join_room setup world user_id room_id is_invited g).0
        ≡ ok (
            verdict_if (
              is_protected rs user_id
              && (not is_invited
                  && fails_under setup.config.uninvited_joins
                      (known_room_reason world.api rs user_id room_id))))
  unfolding user_may_join_room
  dry_run_forbids_joins_on_error user_id room_id is_invited g =
      let rs = loaded setup world g in
      rw (after_rules setup world (λ rs. join_by setup world rs user_id room_id is_invited) g) (
        dry_join_by rs user_id room_id is_invited (fail_closed setup world (some user_id ∷ []))
          (ready setup world g)
          (λ there.
            closed_first setup world [] user_id (ready setup world g)
              (ready_involves setup world g user_id there)))
