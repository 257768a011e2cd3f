-- ===== src/PendingInvites/Cleared.antt =====
-- What the exit code of the script says of the homeserver.
use synapse_guardian.Prelude.Steps.{continue}
use synapse_guardian.Prelude.{
  ℕ, ◌≡◌, sym, ap, subst, ◌∙◌, inl, inr, Bool, true, false, List, [], ◌∷◌, arith, Text, text_eq,
  text_eq_iff, is_given, All, Bool-cases,
}
use synapse_guardian.Prelude.Result.{Result, ok, ok-injective}
use synapse_guardian.Value.{Value, Fields, end, field, lookup}
use synapse_guardian.PendingInvites.{
  Server, Stopped, Run, access_token, fatal, given, pending_invites, reject_invite, reject_all,
  announce, log_out, clear_listed, with_token, clean_user, clean_users, exit_code, main,
}
use synapse_guardian.PendingInvites.Honest.{IsHonest, continue-ok, no_failures, logged_at}
use synapse_guardian.PendingInvites.Extends.{
  Extends, pending_invites-Extends, reject_invite-Extends, reject_all-Extends, announce-Extends,
  log_out-Extends, clear_listed-Extends, returned, clean_user-Extends, clean_users-Extends,
}
use synapse_guardian.PendingInvites.Leaving.{listed_lem, reject_invite_lem}

module _ {S : Type 0} (server : Server S) (pending : S → Text → Text → Bool) (owner : Value → Text)
    (honest : IsHonest server pending owner) where
  reject_all_lem :
      (user : Text) (token : Value) (invites : Fields) (r r' : Run S)
      → reject_all server false user token invites r ≡ (ok tt, r')
      → r'.failures ≡ r.failures
      → (room : Text) → is_given (lookup room invites) ≡ true
      → pending r'.server (owner token) room ≡ false
  unfolding reject_all lookup Extends
  reject_all_lem user token end r r' h same room listed = absurd (cc)
  reject_all_lem user token (field room_id invite rest) r r' h same room listed =
      let (done, r1, first, later) =
        continue-ok (reject_invite server false user token room_id invite r)
          (λ done. reject_all server false user token rest) tt r' h in
      let (up_to, kept) =
        subst (Extends server pending owner honest r)
          (ap (λ (x : Result Stopped (Unit {0}) × Run S). x.1) first)
          (reject_invite-Extends server pending owner honest user token room_id invite r) in
      let (from, keeps) =
        subst (Extends server pending owner honest r1)
          (ap (λ (x : Result Stopped (Unit {0}) × Run S). x.1) later)
          (reject_all-Extends server pending owner honest user token rest r1) in
      elim (Bool-cases (text_eq room_id room)) [
        | inl here ↦
            let e = (text_eq_iff room_id room).0 here in
            keeps (owner token) room (
              subst (λ x. pending r1.server (owner token) x ≡ false) e
                (reject_invite_lem server pending owner honest user token room_id invite r r1 first
                  (omega arith)))
        | inr there ↦
            reject_all_lem user token rest r1 r' later (omega arith) room (rw there at listed)
      ]

  clear_listed_lem :
      (user : Text) (token : Value) (invites : Fields) (r r' : Run S)
      → clear_listed server false user token invites r ≡ (ok tt, r')
      → r'.failures ≡ r.failures
      → (room : Text) → is_given (lookup room invites) ≡ true
      → pending r'.server (owner token) room ≡ false
  unfolding clear_listed Extends
  clear_listed_lem user token invites r r' h same room listed =
      let (done, r1, first, rest) = continue-ok (announce server false user invites r) _ tt r' h in
      let (done', r2, second, last) =
        continue-ok (reject_all server false user token invites r1) (λ done. log_out server token)
          tt r' rest in
      let (a, keeps1) =
        returned server pending owner honest r r1 _ done first
          (announce-Extends server pending owner honest user invites r) in
      let (b, keeps2) =
        returned server pending owner honest r1 r2 _ done' second
          (reject_all-Extends server pending owner honest user token invites r1) in
      let (c, keeps3) =
        returned server pending owner honest r2 r' _ tt last
          (log_out-Extends server pending owner honest token r2) in
      keeps3 (owner token) room
        (reject_all_lem user token invites r1 r2 second (omega arith) room listed)

  with_token_lem :
      (user : Text) (token : Value) (r r' : Run S)
      → with_token server false user token r ≡ (ok tt, r')
      → r'.failures ≡ r.failures
      → (room : Text) → pending r'.server (owner token) room ≡ false
  unfolding with_token Extends
  with_token_lem user token r r' h same room =
      let (invites, r1, listed, rest) =
        continue-ok (pending_invites server token r) (clear_listed server false user token) tt r'
          h in
      let (now, count, synced) =
        listed_lem server pending owner honest token r r1 invites room listed in
      let (b, keeps) =
        returned server pending owner honest r1 r' _ tt rest
          (clear_listed-Extends server pending owner honest user token invites r1) in
      let (a, kept) =
        returned server pending owner honest r r1 _ invites listed
          (pending_invites-Extends server pending owner honest token r) in
      elim (Bool-cases (is_given (lookup room invites))) [
        | inl is_listed ↦
            clear_listed_lem user token invites r1 r' rest (same ∙ sym count) room is_listed
        | inr absent ↦ keeps (owner token) room (kept (owner token) room (sym now ∙ absent))
      ]

  clean_user_lem :
      (user : Text) (r r' : Run S)
      → clean_user server false user r ≡ (ok tt, r')
      → r'.failures ≡ r.failures
      → (room : Text) → pending r'.server user room ≡ false
  unfolding clean_user
  clean_user_lem user r r' h same room =
      let entered = record r { server = (server.login user r.server).1 } in
      let (token, r1, first, rest) =
        continue-ok
          (continue (given (fatal (server.login user r.server).0) entered)
            (λ login. given (access_token login)))
          (with_token server false user) tt r' h in
      let (response, was_answered, has_token, left) =
        logged_at (server.login user r.server).0 entered r1 token first in
      let owned = honest.login_owner user r.server response token was_answered has_token in
      let count : r'.failures ≡ r1.failures = same ∙ sym (ap (λ (x : Run S). x.failures) left) in
      subst (λ u. pending r'.server u room ≡ false) owned
        (with_token_lem user token r1 r' rest count room)

  clean_users_lem :
      (users : List Text) (r r' : Run S)
      → clean_users server false users r ≡ (ok tt, r')
      → r'.failures ≡ r.failures
      → All (λ user. (room : Text) → pending r'.server user room ≡ false) users
  unfolding clean_users Extends
  clean_users_lem [] r r' h same = tt
  clean_users_lem (user ∷ users) r r' h same =
      let (done, r1, first, rest) =
        continue-ok (clean_user server false user r) (λ done. clean_users server false users) tt r'
          h in
      let (a, kept) =
        returned server pending owner honest r r1 _ done first
          (clean_user-Extends server pending owner honest user r) in
      let (b, keeps) =
        returned server pending owner honest r1 r' _ tt rest
          (clean_users-Extends server pending owner honest users r1) in
      (
        λ room. keeps user room (clean_user_lem user r r1 first (omega arith) room),
        clean_users_lem users r1 r' rest (omega arith),
      )

  -- With an honest homeserver, a run that is no dry run, starts without failures and returns exit code 0
  -- leaves none of its users with a pending invite, even where the server has answered with errors.
  pub exit_zero_clears :
      (users : List Text) (r r' : Run S)
      → r.failures ≡ 0
      → main server false users r ≡ (ok 0, r')
      → All (λ user. (room : Text) → pending r'.server user room ≡ false) users
  unfolding main
  exit_zero_clears users r r' start h =
      let (done, r1, cleaned, code) = continue-ok (clean_users server false users r) _ 0 r' h in
      let left : r1 ≡ r' = ap (λ (x : Result Stopped ℕ × Run S). x.1) code in
      let zero_code : exit_code r1.failures ≡ 0 =
        ok-injective (ap (λ (x : Result Stopped ℕ × Run S). x.0) code) in
      subst (λ (x : Run S). All (λ user. (room : Text) → pending x.server user room ≡ false) users)
        left (clean_users_lem users r r1 cleaned (no_failures r1.failures zero_code ∙ sym start))
