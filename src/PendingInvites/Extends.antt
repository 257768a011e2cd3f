-- ===== src/PendingInvites/Extends.antt =====
-- What no step of the script undoes.
use synapse_guardian.Prelude.Steps.{continue}
use synapse_guardian.Prelude.{
  ◌≡◌, ◌≤◌, refl, ap, subst, inl, inr, Bool, false, List, [], ◌∷◌, Option, none, some, arith, Text,
  is_given, Bool-cases,
}
use synapse_guardian.Prelude.Result.{Result, ok, err}
use synapse_guardian.Value.{Value, Fields, end, field, lookup}
use synapse_guardian.PendingInvites.{
  Server, Stopped, Run, Script, invites_in, access_token, inviter_of, fatal, error_of, given, ask,
  pending_invites, judge, after_leave, leave_room, reject_invite, reject_all, announce, log_out,
  clear_listed, with_token, clean_user, clean_users,
}
use synapse_guardian.PendingInvites.Honest.{IsHonest}

module _ {S : Type 0} (server : Server S) (pending : S → Text → Text → Bool) (owner : Value → Text)
    (honest : IsHonest server pending owner) where
  -- no invite has come, and no failure is forgotten
  unfoldable pub Extends : Run S → Run S → Type 0
  Extends r r' =
      (r.failures ≤ r'.failures)
      × ((u room : Text) → pending r.server u room ≡ false → pending r'.server u room ≡ false)

  pub same-Extends : (r r' : Run S) → r.failures ≡ r'.failures → r.server ≡ r'.server → Extends r r'
  unfolding Extends
  same-Extends r r' count state =
      (omega arith, λ u room h. subst (λ s. pending s u room ≡ false) state h)

  pub Extends-trans : (a b c : Run S) → Extends a b → Extends b c → Extends a c
  unfolding Extends
  Extends-trans a b c (less, keeps) (less', keeps') =
      (omega arith, λ u room h. keeps' u room (keeps u room h))

  pub Extends-continue :
      {A : Type 0} {B : Type 0} (r : Run S) (first : Result Stopped A × Run S)
      (next : A → Script S B)
      → Extends r first.1
      → ((a : A) (r' : Run S) → Extends r' (next a r').1)
      → Extends r (continue first next).1
  Extends-continue r (err why, r1) next here later = here
  Extends-continue r (ok a, r1) next here later = Extends-trans r r1 (next a r1).1 here (later a r1)

  pub given-Extends :
      {A : Type 0} (result : Result Stopped A) (r : Run S) → Extends r (given result r).1
  given-Extends result r = same-Extends r r refl refl

  pub sync-Extends : (token : Value) (r : Run S) → Extends r (ask (server.sync token) r).1
  unfolding Extends
  sync-Extends token r = (omega arith, honest.sync_keeps token r.server)

  pub pending_invites-Extends :
      (token : Value) (r : Run S) → Extends r (pending_invites server token r).1
  unfolding pending_invites
  pending_invites-Extends token r =
      Extends-continue r _ _
        (Extends-continue r (ask (server.sync token) r) (λ answer. given (fatal answer))
          (sync-Extends token r) (λ answer r'. given-Extends (fatal answer) r'))
        (λ response r'. given-Extends (invites_in response) r')

  pub judge-Extends :
      (user room : Text) (inviter : Value) (error : Value) (invites : Fields) (r : Run S)
      → Extends r (judge server user room inviter error invites r).1
  unfolding judge Extends
  judge-Extends user room inviter error invites r =
      elim (Bool-cases (is_given (lookup room invites))) [
        | inl still ↦ rw still (omega arith, λ u room' h. h)
        | inr over ↦ rw over (omega arith, λ u room' h. h)
      ]

  pub after_leave-Extends :
      (user : Text) (token : Value) (room : Text) (inviter : Value) (error : Option Value)
      (r : Run S)
      → Extends r (after_leave server user token room inviter error r).1
  unfolding after_leave
  after_leave-Extends user token room inviter none r = same-Extends r _ refl refl
  after_leave-Extends user token room inviter (some error) r =
      Extends-continue r (pending_invites server token r) (judge server user room inviter error)
        (pending_invites-Extends token r)
        (λ invites r'. judge-Extends user room inviter error invites r')

  pub leave-Extends :
      (token : Value) (room : Text) (r : Run S) → Extends r (ask (server.leave token room) r).1
  unfolding Extends
  leave-Extends token room r = (omega arith, honest.leave_keeps token room r.server)

  pub leave_room-Extends :
      (user : Text) (token : Value) (room : Text) (inviter : Value) (r : Run S)
      → Extends r (leave_room server user token room inviter r).1
  unfolding leave_room
  leave_room-Extends user token room inviter r =
      Extends-continue r _ (after_leave server user token room inviter)
        (Extends-continue r (ask (server.leave token room) r) (λ answer. given (error_of answer))
          (leave-Extends token room r) (λ answer r'. given-Extends (error_of answer) r'))
        (after_leave-Extends user token room inviter)

  pub reject_invite-Extends :
      (user : Text) (token : Value) (room : Text) (invite : Value) (r : Run S)
      → Extends r (reject_invite server false user token room invite r).1
  unfolding reject_invite
  reject_invite-Extends user token room invite r =
      Extends-continue r (given (inviter_of user invite) r) (leave_room server user token room)
        (given-Extends (inviter_of user invite) r) (leave_room-Extends user token room)

  pub reject_all-Extends :
      (user : Text) (token : Value) (invites : Fields) (r : Run S)
      → Extends r (reject_all server false user token invites r).1
  unfolding reject_all
  reject_all-Extends user token end r = same-Extends r r refl refl
  reject_all-Extends user token (field room invite rest) r =
      Extends-continue r (reject_invite server false user token room invite r)
        (λ done. reject_all server false user token rest)
        (reject_invite-Extends user token room invite r)
        (λ done r'. reject_all-Extends user token rest r')

  pub announce-Extends :
      (user : Text) (invites : Fields) (r : Run S)
      → Extends r (announce server false user invites r).1
  announce-Extends user end r = same-Extends r _ refl refl
  announce-Extends user (field room invite rest) r = same-Extends r r refl refl

  pub log_out-Extends : (token : Value) (r : Run S) → Extends r (log_out server token r).1
  unfolding log_out Extends
  log_out-Extends token r =
      Extends-continue r (given (error_of (server.logout token r.server).0) out)
        (λ error r'. (ok tt, r')) (omega arith, honest.logout_keeps token r.server)
        (λ error r'. same-Extends r' r' refl refl)
    where
      out : Run S
      out = record r { server = (server.logout token r.server).1 }

  pub clear_listed-Extends :
      (user : Text) (token : Value) (invites : Fields) (r : Run S)
      → Extends r (clear_listed server false user token invites r).1
  unfolding clear_listed
  clear_listed-Extends user token invites r =
      Extends-continue r (announce server false user invites r) _ (announce-Extends user invites r)
        (λ done r1.
          Extends-continue r1 (reject_all server false user token invites r1) _
            (reject_all-Extends user token invites r1) (λ done r2. log_out-Extends token r2))

  pub with_token-Extends :
      (user : Text) (token : Value) (r : Run S) → Extends r (with_token server false user token r).1
  unfolding with_token
  with_token-Extends user token r =
      Extends-continue r (pending_invites server token r) (clear_listed server false user token)
        (pending_invites-Extends token r) (clear_listed-Extends user token)

  -- the run after a computation that returned
  pub returned :
      {A : Type 0} (r r' : Run S) (x : Result Stopped A × Run S) (a : A)
      → x ≡ (ok a, r')
      → Extends r x.1
      → Extends r r'
  returned r r' x a h e = subst (Extends r) (ap (λ (y : Result Stopped _ × Run S). y.1) h) e

  pub clean_user-Extends : (user : Text) (r : Run S) → Extends r (clean_user server false user r).1
  unfolding clean_user Extends
  clean_user-Extends user r =
      let entered = record r { server = (server.login user r.server).1 } in
      let keeps : Extends r entered = (omega arith, honest.login_keeps user r.server) in
      Extends-continue r _ (with_token server false user)
        (Extends-continue r (given (fatal (server.login user r.server).0) entered)
          (λ login. given (access_token login)) keeps
          (λ login r'. given-Extends (access_token login) r'))
        (with_token-Extends user)

  pub clean_users-Extends :
      (users : List Text) (r : Run S) → Extends r (clean_users server false users r).1
  unfolding clean_users
  clean_users-Extends [] r = same-Extends r r refl refl
  clean_users-Extends (user ∷ users) r =
      Extends-continue r (clean_user server false user r) (λ done. clean_users server false users)
        (clean_user-Extends user r) (λ done r'. clean_users-Extends users r')
