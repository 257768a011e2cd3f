-- ===== src/PendingInvites.antt =====
-- scripts/reject_pending_invites.py: the run of the script, with the homeserver as a parameter. A request
-- is answered, fails with an HTTP error, or raises something else; what is printed is a list of lines.
pub mod Honest
pub mod Extends
pub mod Leaving
pub mod Cleared
pub mod DryRun
pub mod Users
use synapse_guardian.Prelude.Steps.{continue, ◌>>=◌}
use synapse_guardian.Prelude.{
  ℕ, zero, suc, ◌≡◌, Bool, true, false, not, ◌&&◌, List, [], ◌∷◌, ◌++◌, Option, none, some,
  if◌then◌else◌, Text, codes, text_eq, is_given,
}
use synapse_guardian.Prelude.Result.{Result, ok, err}
use synapse_guardian.Value.{
  Value, null, str, arr, obj, Items, nil, cons, Fields, end, field, lookup, get, get_or, is_text,
  truthy,
}

-- what `request` meets
pub data Answer : Type 0 where
  answered : Fields → Answer
  http_error : Text → Answer
  unreachable : Text → Answer

-- The requests of the script, on the states of the homeserver: logging in as a user, syncing, leaving a
-- room and logging out, the last three with a token.
pub record Server (S : Type 0) : Type 0 where
  pub login : Text → S → Answer × S
  pub sync : Value → S → Answer × S
  pub leave : Value → Text → S → Answer × S
  pub logout : Value → S → Answer × S

-- The lines that are printed: user, room, inviter, and the error, which may be any value of JSON.
pub data Printed : Type 0 where
  no_invites : Text → Printed
  would_reject rejected : Text → Text → Value → Printed
  failed gone : Text → Text → Value → Value → Printed

-- What ends the script with a traceback or a message.
pub data Stopped : Type 0 where
  system_exit not_reached : Text → Stopped
  key_error attribute_error type_error : Stopped

pub record Run (S : Type 0) : Type 0 where
  pub server : S
  pub printed : List Printed
  pub failures : ℕ

-- m.get(key, {}), whose result is used as a mapping
unfoldable pub mapping_at : Text → Fields → Result Stopped Fields
mapping_at key m = elim (get_or key (obj end) m) [ obj inner ↦ ok inner | _ ↦ err attribute_error ]

-- The end of `pending_invites`: sync.get("rooms", {}).get("invite", {}). If this is no mapping, the caller
-- raises; the model raises here, before the line of a user without invites.
unfoldable pub invites_in : Fields → Result Stopped Fields
invites_in sync = elim (mapping_at (codes "rooms") sync) [
  | err why ↦ err why
  | ok rooms ↦ mapping_at (codes "invite") rooms
]

-- login["access_token"]
unfoldable pub access_token : Fields → Result Stopped Value
access_token login = elim (lookup (codes "access_token") login) [
  | none ↦ err key_error
  | some token ↦ ok token
]

-- the sender of the user's membership event, or "?"
unfoldable pub sender_among : Text → Items → Result Stopped Value
sender_among user_id nil = ok (str (codes "?"))
sender_among user_id (cons (obj ev) items) =
    let later = sender_among user_id items in
    if is_text (codes "m.room.member") (get (codes "type") ev)
      && is_text user_id (get (codes "state_key") ev)
    then ok (get (codes "sender") ev)
    else later
sender_among user_id (cons _ items) = err attribute_error

-- what is iterated over as the events; what is empty gives none
unfoldable pub inviter_among : Text → Value → Result Stopped Value
inviter_among user_id (arr items) = sender_among user_id items
inviter_among user_id (str []) = ok (str (codes "?"))
inviter_among user_id (obj end) = ok (str (codes "?"))
inviter_among user_id (str (c ∷ s)) = err attribute_error
inviter_among user_id (obj (field k v rest)) = err attribute_error
inviter_among user_id _ = err type_error

-- `inviter`, from the data of one invite
unfoldable pub inviter_of : Text → Value → Result Stopped Value
inviter_of user_id (obj invite) = elim (mapping_at (codes "invite_state") invite) [
  | err why ↦ err why
  | ok state ↦ inviter_among user_id (get_or (codes "events") (arr nil) state)
]
inviter_of user_id _ = err attribute_error

-- `request` where an HTTP error ends the script
abbrev pub fatal : Answer → Result Stopped Fields
fatal (answered response) = ok response
fatal (http_error detail) = err (system_exit detail)
fatal (unreachable why) = err (not_reached why)

-- what result.get("_error") gives, where that is not None
unfoldable pub given_error : Value → Option Value
given_error null = none
given_error error = some error

-- `request` where it does not, and result.get("_error")
abbrev pub error_of : Answer → Result Stopped (Option Value)
error_of (answered response) = ok (given_error (get (codes "_error") response))
error_of (http_error detail) = ok (some (str detail))
error_of (unreachable why) = err (not_reached why)

abbrev pub Script {ℓ} : Type 0 → Type ℓ → Type ℓ
Script S A = Run S → Result Stopped A × Run S

-- the exit code, by the number of failures
abbrev pub exit_code : ℕ → ℕ
exit_code zero = 0
exit_code (suc n) = 1

module _ {S : Type 0} where
  abbrev pub given : {A : Type 0} → Result Stopped A → Script S A
  given result r = (result, r)

  abbrev pub print : Printed → Script S (Unit {0})
  print line r = (ok tt, record r { printed = r.printed ++ line ∷ [] })

  -- a request is made on the homeserver of the run
  abbrev pub ask : (S → Answer × S) → Script S Answer
  ask call r = (ok (call r.server).0, record r { server = (call r.server).1 })

  module _ (server : Server S) where
    -- `pending_invites`
    unfoldable pub pending_invites : Value → Script S Fields
    pending_invites token =
        ask (server.sync token) >>= (λ answer. given (fatal answer)) >>= λ response.
        given (invites_in response)

    -- the end of the loop over rooms, when the server has reported an error
    unfoldable pub judge : Text → Text → Value → Value → Fields → Script S (Unit {0})
    judge user_id room_id inviter error invites r =
        if is_given (lookup room_id invites)
        then (
          ok tt,
          record r {
            printed = r.printed ++ failed user_id room_id inviter error ∷ [];
            failures = suc r.failures;
          },
        )
        else print (gone user_id room_id inviter error) r

    unfoldable pub after_leave : Text → Value → Text → Value → Option Value → Script S (Unit {0})
    after_leave user_id token room_id inviter none = print (rejected user_id room_id inviter)
    after_leave user_id token room_id inviter (some error) =
        pending_invites token >>= judge user_id room_id inviter error

    unfoldable pub leave_room : Text → Value → Text → Value → Script S (Unit {0})
    leave_room user_id token room_id inviter =
        ask (server.leave token room_id)
        >>= (λ answer. given (error_of answer))
        >>= after_leave user_id token room_id inviter

    -- the token is revoked; an HTTP error does not matter
    unfoldable pub log_out : Value → Script S (Unit {0})
    log_out token =
        ask (server.logout token) >>= λ answer. given (error_of answer) >>= λ error r. (ok tt, r)

    module _ (dry_run : Bool) where
      -- one round of the loop over rooms
      unfoldable pub reject_invite : Text → Value → Text → Value → Script S (Unit {0})
      reject_invite user_id token room_id invite = given (inviter_of user_id invite) >>= λ inviter.
          if dry_run
          then print (would_reject user_id room_id inviter)
          else leave_room user_id token room_id inviter

      unfoldable pub reject_all : Text → Value → Fields → Script S (Unit {0})
      reject_all user_id token end r = (ok tt, r)
      reject_all user_id token (field room_id invite rest) r =
          continue (reject_invite user_id token room_id invite r)
            (λ done. reject_all user_id token rest)

      abbrev pub announce : Text → Fields → Script S (Unit {0})
      announce user_id end r = print (no_invites user_id) r
      announce user_id (field room_id invite rest) r = (ok tt, r)

      unfoldable pub clear_listed : Text → Value → Fields → Script S (Unit {0})
      clear_listed user_id token invites = announce user_id invites >>= λ done.
          reject_all user_id token invites >>= λ done. log_out token

      unfoldable pub with_token : Text → Value → Script S (Unit {0})
      with_token user_id token = pending_invites token >>= clear_listed user_id token

      -- one round of the loop over users
      unfoldable pub clean_user : Text → Script S (Unit {0})
      clean_user user_id =
          ask (server.login user_id)
          >>= (λ answer. given (fatal answer))
          >>= (λ login. given (access_token login))
          >>= with_token user_id

      unfoldable pub clean_users : List Text → Script S (Unit {0})
      clean_users [] r = (ok tt, r)
      clean_users (user_id ∷ users) r = continue (clean_user user_id r) (λ done. clean_users users)

      -- `main`, from where the users are known: the exit code
      unfoldable pub main : List Text → Script S ℕ
      main users = clean_users users >>= λ done r. (ok (exit_code r.failures), r)
