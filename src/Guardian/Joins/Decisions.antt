-- ===== src/Guardian/Joins/Decisions.antt =====
-- The verdicts of `user_may_join_room`, and what it starts.
use synapse_guardian.Prelude.Steps.{continue, ◌>>=◌}
use synapse_guardian.Prelude.{
  ◌≡◌, refl, sym, subst, inl, inr, Bool, true, false, not, ◌&&◌, [], ◌∷◌, Option, none, some,
  if◌then◌else◌, Text, codes, Bool-cases,
}
use synapse_guardian.Prelude.Result.{Result, ok, err}
use synapse_guardian.Unicode.{Unicode}
use synapse_guardian.Value.{as_text}
use synapse_guardian.Policy.Rules.{RuleSet, is_protected, evaluate}
use synapse_guardian.Config.{JoinPolicy, deny, known_rooms}
use synapse_guardian.Guardian.{
  Setup, World, Lookup, unavailable, raises, found, Guardian, Verdict, not_spam, Raised, Exec,
  has_notifier, raised, handle, catch, start, block, fail_closed, is_involved,
}
use synapse_guardian.Guardian.Reasons.{known_room_reason}
use synapse_guardian.Guardian.Closed.{
  loaded, ready, after_rules, ready_involves, Closes, block-Closes, closed_first, catch_closed,
}
use synapse_guardian.Guardian.Invites.Decisions.{verdict_if}
use synapse_guardian.Guardian.Joins.{
  lift, inviter_found, inviter, clear_invite, vetted_join, invited_join_verdict, known_join,
  join_under, join_by, user_may_join_room,
}

-- the sender of the invite, where the look-up gives one
unfoldable pub sender_of : Lookup → Option Text
sender_of (found sender) = as_text sender
sender_of _ = none

-- there is a reason to refuse, or looking for one raises
unfoldable pub is_objection : Result Raised (Option Text) → Bool
is_objection (ok none) = false
is_objection _ = true

module _ ⦃u : Unicode⦄ where
  -- the invite was sent by somebody that the rules do not allow
  unfoldable pub is_stale : RuleSet → Option Text → Bool
  is_stale rs none = false
  is_stale rs (some sender) = not (evaluate rs sender).allowed

  -- whether a policy refuses an uninvited join, from the look at the room
  unfoldable pub is_refused_under : JoinPolicy → Result Raised (Option Text) → Bool
  is_refused_under deny r = true
  is_refused_under known_rooms r = is_objection r

module _ ⦃u : Unicode⦄ (setup : Setup) (world : World) where
  -- whether a join of a protected user is refused
  unfoldable pub is_refused_join : RuleSet → Text → Text → Bool → Bool
  is_refused_join rs user_id room_id is_invited =
      if is_invited
      then is_stale rs (sender_of (world.inviter_of user_id room_id))
      else is_refused_under setup.config.uninvited_joins
          (known_room_reason world.api rs user_id room_id)

handled_spam :
    (r : Result Raised Verdict × Guardian) (h : Exec Verdict)
    → r.0 ≡ ok not_spam
    → (handle r h).0 ≡ ok not_spam
handled_spam (ok v, g) h e = e
handled_spam (err x, g) h e = cc

module _ ⦃u : Unicode⦄ (setup : Setup) (world : World) (live : setup.config.dry_run ≡ false) where
  cleared-Closes :
      (user_id room_id sender why : Text)
      → Closes setup world (
          block setup world (codes "join") user_id room_id (some room_id) why
          >>= clear_invite setup world user_id room_id sender)
  unfolding block start clear_invite
  cleared-Closes user_id room_id sender why g = elim (Bool-cases world.can_start) [
    | inl can ↦ elim (Bool-cases (has_notifier setup)) [
      | inl told ↦ inl (rw (told, can, live) refl)
      | inr untold ↦ inl (rw (untold, live, can) refl)
    ]
    | inr cannot ↦ elim (Bool-cases (has_notifier setup)) [
      | inl told ↦ inr (raised, rw (told, cannot) refl)
      | inr untold ↦ inr (raised, rw (untold, live, cannot) refl)
    ]
  ]

  -- Where a join is refused, the computation that decides it closes; otherwise it lets the user in.
  unfoldable pub Decides : Exec Verdict → Bool → Type 0
  Decides m true = Closes setup world m
  Decides m false = (g : Guardian) → (m g).0 ≡ ok not_spam

  vetted-Decides :
      (rs : RuleSet) (user_id room_id : Text) (sender : Option Text)
      → Decides (vetted_join setup world rs user_id room_id sender) (is_stale rs sender)
  unfolding vetted_join is_stale Decides
  vetted-Decides rs user_id room_id none = λ g. refl
  vetted-Decides rs user_id room_id (some sender) = elim (Bool-cases (evaluate rs sender).allowed) [
    | inl allowed ↦ rw allowed (λ g. refl)
    | inr banned ↦ rw banned (cleared-Closes user_id room_id sender _)
  ]

  pub decided :
      (m : Exec Verdict) (forbid : Bool) (user_id : Text) (g : Guardian)
      → Decides m forbid
      → is_involved setup world g.store user_id ≡ true
      → (catch m (fail_closed setup world (some user_id ∷ [])) g).0 ≡ ok (verdict_if forbid)
  unfolding Decides
  decided m true user_id g closes involved =
      catch_closed setup world m (fail_closed setup world (some user_id ∷ [])) g closes
        (closed_first setup world [] user_id g involved)
  decided m false user_id g lets involved =
      handled_spam (m g) (fail_closed setup world (some user_id ∷ [])) (lets g)

  invited_lem :
      (rs : RuleSet) (user_id room_id : Text) (l : Lookup) (g : Guardian)
      → is_involved setup world g.store user_id ≡ true
      → (handle
          (continue (inviter_found l g) (vetted_join setup world rs user_id room_id))
          (fail_closed setup world (some user_id ∷ []))).0
        ≡ ok (verdict_if (is_stale rs (sender_of l)))
  unfolding inviter_found sender_of is_stale
  invited_lem rs user_id room_id unavailable g involved = unfold vetted_join in refl
  invited_lem rs user_id room_id raises g involved = unfold vetted_join in refl
  invited_lem rs user_id room_id (found sender) g involved =
      decided (vetted_join setup world rs user_id room_id (as_text sender))
        (is_stale rs (as_text sender)) user_id g
        (vetted-Decides rs user_id room_id (as_text sender)) involved

  known-Decides :
      (user_id room_id : Text) (r : Result Raised (Option Text))
      → Decides (lift r >>= known_join setup world user_id room_id) (is_objection r)
  unfolding Decides is_objection known_join
  known-Decides user_id room_id (ok none) = λ g. refl
  known-Decides user_id room_id (ok (some why)) = block-Closes setup world live _ _ _ _ _
  known-Decides user_id room_id (err x) = λ g. inr (x, refl)

  under-Decides :
      (policy : JoinPolicy) (rs : RuleSet) (user_id room_id : Text)
      → Decides
          (join_under setup world policy rs user_id room_id)
          (is_refused_under policy (known_room_reason world.api rs user_id room_id))
  unfolding Decides join_under is_refused_under
  under-Decides deny rs user_id room_id = block-Closes setup world live _ _ _ _ _
  under-Decides known_rooms rs user_id room_id =
      known-Decides user_id room_id (known_room_reason world.api rs user_id room_id)

  join_by_lem :
      (rs : RuleSet) (user_id room_id : Text) (is_invited : Bool) (g : Guardian)
      → is_involved setup world g.store user_id ≡ true
      → is_protected rs user_id ≡ true
      → (catch
          (join_by setup world rs user_id room_id is_invited)
          (fail_closed setup world (some user_id ∷ []))
          g).0
        ≡ ok (verdict_if (is_refused_join setup world rs user_id room_id is_invited))
  unfolding join_by is_refused_join
  join_by_lem rs user_id room_id true g involved there = rw there (
      unfold invited_join_verdict inviter in
      invited_lem rs user_id room_id (world.inviter_of user_id room_id) g involved)
  join_by_lem rs user_id room_id false g involved there = rw there (
      decided (join_under setup world setup.config.uninvited_joins rs user_id room_id) _ user_id g
        (under-Decides setup.config.uninvited_joins rs user_id room_id) involved)

  join_lem :
      (rs : RuleSet) (user_id room_id : Text) (is_invited : Bool) (g : Guardian)
      → (is_protected rs user_id ≡ true → is_involved setup world g.store user_id ≡ true)
      → (catch
          (join_by setup world rs user_id room_id is_invited)
          (fail_closed setup world (some user_id ∷ []))
          g).0
        ≡ ok (
            verdict_if (
              is_protected rs user_id && is_refused_join setup world rs user_id room_id is_invited))
  join_lem rs user_id room_id is_invited g involves = elim (Bool-cases (is_protected rs user_id)) [
    | inl there ↦
        subst
          (λ b.
            (catch (join_by setup world rs user_id room_id is_invited)
              (fail_closed setup world (some user_id ∷ [])) g).0
            ≡ ok (verdict_if (b && is_refused_join setup world rs user_id room_id is_invited)))
          (sym there) (join_by_lem rs user_id room_id is_invited g (involves there) there)
    | inr away ↦ unfold join_by in rw away refl
  ]

  -- Outside a dry run, and whatever the look-ups answer or raise, a join is forbidden exactly if the
  -- loaded rules protect the user and refuse the join: for an invited one, if the invite is found to
  -- be from somebody that they do not allow; for another one, if the policy is `deny`, or the room is
  -- not known to be safe. The callback itself never raises.
  pub user_may_join_room_lem :
      (user_id room_id : Text) (is_invited : Bool) (g : Guardian)
      → let rs = loaded setup world g in
        (user_may_join_room setup world user_id room_id is_invited g).0
        ≡ ok (
            verdict_if (
              is_protected rs user_id && is_refused_join setup world rs user_id room_id is_invited))
  unfolding user_may_join_room
  user_may_join_room_lem user_id room_id is_invited g =
      let rs = loaded setup world g in
      rw (after_rules setup world (λ rs. join_by setup world rs user_id room_id is_invited) g) (
        join_lem rs user_id room_id is_invited (ready setup world g)
          (ready_involves setup world g user_id))
