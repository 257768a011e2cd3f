-- ===== src/PendingInvites/DryRun.antt =====
-- A dry run of the script.
use synapse_guardian.Prelude.Steps.{continue}
use synapse_guardian.Prelude.{◌≡◌, refl, ap, ◌∙◌, fun_ext, true, List, [], ◌∷◌, Text}
use synapse_guardian.Prelude.Result.{ok}
use synapse_guardian.Value.{Value, Fields, end, field}
use synapse_guardian.PendingInvites.{
  Answer, Server, Run, Script, fatal, access_token, given, pending_invites, reject_invite,
  reject_all, announce, log_out, clear_listed, with_token, clean_user, clean_users, main, exit_code,
}

module _ {S : Type 0} (server : Server S) (other : Value → Text → S → Answer × S) where
  changed : Server S
  changed = record server { leave = other }

  same_round :
      (user : Text) (token : Value) (room : Text) (invite : Value)
      → reject_invite server true user token room invite
        ≡ reject_invite changed true user token room invite
  unfolding reject_invite changed
  same_round user token room invite = refl

  same_all :
      (user : Text) (token : Value) (invites : Fields) (r : Run S)
      → reject_all server true user token invites r ≡ reject_all changed true user token invites r
  unfolding reject_all
  same_all user token end r = refl
  same_all user token (field room invite rest) r =
      ap (λ m. continue (m r) (λ done. reject_all server true user token rest))
        (same_round user token room invite)
      ∙ ap (λ next. continue (reject_invite changed true user token room invite r) (λ done. next))
          (fun_ext (same_all user token rest))

  same_listed :
      (user : Text) (token : Value)
      → clear_listed server true user token ≡ clear_listed changed true user token
  unfolding clear_listed changed log_out
  same_listed user token = fun_ext (λ invites.
      ap
        (λ m r.
          continue (announce server true user invites r)
            (λ done r1. continue (m r1) (λ done. log_out server token)))
        (fun_ext (same_all user token invites)))

  same_token : (user : Text) → with_token server true user ≡ with_token changed true user
  unfolding with_token pending_invites changed
  same_token user = fun_ext (λ token.
      ap (λ next r. continue (pending_invites server token r) next) (same_listed user token))

  -- logging in as a user, up to the token
  logged_in : Text → Script S Value
  logged_in user r =
      continue
        (fatal (server.login user r.server).0, record r { server = (server.login user r.server).1 })
        (λ login. given (access_token login))

  same_user : (user : Text) → clean_user server true user ≡ clean_user changed true user
  unfolding clean_user changed logged_in
  same_user user = ap (λ next r. continue (logged_in user r) next) (same_token user)

  same_users :
      (users : List Text) (r : Run S)
      → clean_users server true users r ≡ clean_users changed true users r
  unfolding clean_users
  same_users [] r = refl
  same_users (user ∷ users) r =
      ap (λ m. continue (m r) (λ done. clean_users server true users)) (same_user user)
      ∙ ap (λ next. continue (clean_user changed true user r) (λ done. next))
          (fun_ext (same_users users))

  -- A dry run makes no request to leave a room: it comes to the same, with the same requests to the
  -- homeserver, whatever such a request would do.
  pub dry_run_never_leaves :
      (users : List Text) (r : Run S)
      → main server true users r ≡ main (record server { leave = other }) true users r
  unfolding main changed
  dry_run_never_leaves users r =
      ap (λ x. continue x (λ done r'. (ok (exit_code r'.failures), r'))) (same_users users r)
