-- ===== src/PendingInvites/Leaving.antt =====
-- The script at one invite: what a request to leave a room, and a look at the list, say of it.
use synapse_guardian.Prelude.Steps.{continue}
use synapse_guardian.Prelude.{
  suc, ◌≡◌, refl, sym, ap, subst, ◌∙◌, inl, inr, Bool, false, Option, none, some, arith, Text,
  codes, is_given, Bool-cases,
}
use synapse_guardian.Prelude.Result.{Result, ok}
use synapse_guardian.Value.{Value, str, get, Fields, lookup}
use synapse_guardian.PendingInvites.{
  Answer, answered, http_error, unreachable, Server, Stopped, Run, inviter_of, error_of,
  given_error, given, pending_invites, judge, after_leave, leave_room, reject_invite,
}
use synapse_guardian.PendingInvites.Honest.{IsHonest, continue-ok, listed_at}

module _ {S : Type 0} (server : Server S) (pending : S → Text → Text → Bool) (owner : Value → Text)
    (honest : IsHonest server pending owner) where
  -- pending_invites returns what is pending
  pub listed_lem :
      (token : Value) (r r' : Run S) (invites : Fields) (room : Text)
      → pending_invites server token r ≡ (ok invites, r')
      → (is_given (lookup room invites) ≡ pending r.server (owner token) room)
        × (r'.failures ≡ r.failures)
        × (r'.server ≡ (server.sync token r.server).1)
  unfolding pending_invites
  listed_lem token r r' invites room h =
      let synced = record r { server = (server.sync token r.server).1 } in
      let (response, was_answered, parsed, left) =
        listed_at (server.sync token r.server).0 synced r' invites h in
      (
        honest.sync_lists token r.server response invites room was_answered parsed,
        ap (λ (x : Run S). x.failures) left,
        ap (λ (x : Run S). x.server) left,
      )

  -- without a new failure the invite is no longer listed
  judge_lem :
      (user room : Text) (inviter : Value) (error : Value) (invites : Fields) (r r' : Run S)
      → judge server user room inviter error invites r ≡ (ok tt, r')
      → r'.failures ≡ r.failures
      → (is_given (lookup room invites) ≡ false) × (r'.server ≡ r.server)
  unfolding judge
  judge_lem user room inviter error invites r r' h same =
      elim (Bool-cases (is_given (lookup room invites))) [
        | inl still ↦
            let counted : suc r.failures ≡ r'.failures =
              ap (λ (x : Result Stopped (Unit {0}) × Run S). x.1.failures)
                (rw (still, judge) at h) in
            absurd (omega arith)
        | inr over ↦ (
          over,
          sym (ap (λ (x : Result Stopped (Unit {0}) × Run S). x.1.server) (rw (over, judge) at h)),
        )
      ]

  after_leave_lem :
      (user : Text) (token : Value) (room : Text) (inviter : Value) (error : Option Value)
      (r r' : Run S)
      → after_leave server user token room inviter error r ≡ (ok tt, r')
      → r'.failures ≡ r.failures
      → (error ≡ none → pending r.server (owner token) room ≡ false)
      → pending r'.server (owner token) room ≡ false
  unfolding after_leave
  after_leave_lem user token room inviter none r r' h same ended =
      subst (λ s. pending s (owner token) room ≡ false)
        (ap (λ (x : Result Stopped (Unit {0}) × Run S). x.1.server) h) (ended refl)
  after_leave_lem user token room inviter (some error) r r' h same ended =
      let (invites, r1, listed, judged) =
        continue-ok (pending_invites server token r) (judge server user room inviter error) tt r'
          h in
      let (pending_now, count, synced) = listed_lem token r r1 invites room listed in
      let (over, left) =
        judge_lem user room inviter error invites r1 r' judged (same ∙ sym count) in
      subst (λ s. pending s (owner token) room ≡ false) (sym (left ∙ synced))
        (honest.sync_keeps token r.server (owner token) room (sym pending_now ∙ over))

  leave_at :
      (user : Text) (token : Value) (room : Text) (inviter : Value) (answer : Answer) (r r' : Run S)
      → continue {S = Run S} (error_of answer, r) (after_leave server user token room inviter)
        ≡ (ok tt, r')
      → r'.failures ≡ r.failures
      → ((response : Fields)
          → answer ≡ answered response
          → pending r.server (owner token) room ≡ false)
      → pending r'.server (owner token) room ≡ false
  leave_at user token room inviter (answered response) r r' h same ended =
      after_leave_lem user token room inviter (given_error (get (codes "_error") response)) r r' h
        same (λ e. ended response refl)
  leave_at user token room inviter (http_error detail) r r' h same ended =
      after_leave_lem user token room inviter (some (str detail)) r r' h same (λ e. absurd (cc))
  leave_at user token room inviter (unreachable why) r r' h same ended = absurd (cc)

  pub reject_invite_lem :
      (user : Text) (token : Value) (room : Text) (invite : Value) (r r' : Run S)
      → reject_invite server false user token room invite r ≡ (ok tt, r')
      → r'.failures ≡ r.failures
      → pending r'.server (owner token) room ≡ false
  unfolding reject_invite leave_room
  reject_invite_lem user token room invite r r' h same =
      let (inviter, r1, found, left) =
        continue-ok (given (inviter_of user invite) r) (leave_room server user token room) tt r'
          h in
      let here : r ≡ r1 = ap (λ (x : Result Stopped Value × Run S). x.1) found in
      let answer = (server.leave token room r.server).0 in
      leave_at user token room inviter answer
        (record r { server = (server.leave token room r.server).1 }) r'
        (subst (λ x. leave_room server user token room inviter x ≡ (ok tt, r')) (sym here) left)
        same (λ response e. honest.leave_ends token room r.server response e)
