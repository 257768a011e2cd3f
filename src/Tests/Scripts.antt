-- ===== src/Tests/Scripts.antt =====
-- The script for pending invites, on a homeserver with one invite.
use synapse_guardian.Prelude.{
  ◌≡◌, refl, sym, subst, ap, Bool, true, false, ◌&&◌, [], ◌∷◌, if◌then◌else◌, Text, codes, text_eq,
  is_given, All, inl, inr, Bool-cases,
}
use synapse_guardian.Prelude.Result.{ok, ok-injective}
use synapse_guardian.Value.{
  Value, str, obj, arr, nil, cons, Fields, end, field, lookup, get, get_or,
}
use synapse_guardian.PendingInvites.{
  answered, http_error, Server, Run, main, invites_in, access_token, mapping_at, clean_users,
  clean_user, with_token, pending_invites, clear_listed, reject_all, reject_invite, inviter_of,
  inviter_among, sender_among, leave_room, after_leave, judge, log_out,
}
use synapse_guardian.PendingInvites.Honest.{IsHonest}
use synapse_guardian.PendingInvites.Cleared.{exit_zero_clears}
use synapse_guardian.PendingInvites.DryRun.{dry_run_never_leaves}
use synapse_guardian.PendingInvites.Users.{
  users_from_config, users_among, protected_in, list_of, names_module,
}

abbrev kid : Text
kid = codes "@kid:h.org"

abbrev den : Text
den = codes "!den:a.org"

abbrev listing : Bool → Fields
listing invited =
    field (codes "rooms")
      (obj (field (codes "invite") (obj (if invited then field den (obj end) end else end)) end))
      end

-- Whether the invite is pending is all that there is to know. A leave ends the invite, but the server
-- reports an error.
abbrev server : Server Bool
server = record {
  login = λ user s. (answered (field (codes "access_token") (str user) end), s);
  sync = λ token s. (answered (listing s), s);
  leave = λ token room s. (http_error (codes "500"), false);
  logout = λ token s. (answered end, s);
}

abbrev pending : Bool → Text → Text → Bool
pending invited user room = invited && text_eq den room

abbrev owner : Value → Text
owner (str user) = user
owner _ = []

listed : (room : Text) → is_given (lookup room (field den (obj end) end)) ≡ text_eq den room
unfolding lookup
listed room = elim (Bool-cases (text_eq den room)) [
  | inl same ↦ rw same refl
  | inr other ↦ rw other refl
]

invites_lem :
    (s : Bool) (invites : Fields) (room : Text)
    → invites_in (listing s) ≡ ok invites
    → is_given (lookup room invites) ≡ pending s [] room
unfolding invites_in mapping_at get_or lookup text_eq
invites_lem true invites room h =
    let same : field den (obj end) end ≡ invites = ok-injective h in
    subst (λ m. is_given (lookup room m) ≡ text_eq den room) same (listed room)
invites_lem false invites room h =
    let same : ◌≡◌ {A = Fields} end invites = ok-injective h in
    subst (λ m. is_given (lookup room m) ≡ false) same refl

answer_eq : {m n : Fields} → answered m ≡ answered n → m ≡ n
answer_eq h = cc

server-IsHonest : IsHonest server pending owner
unfolding access_token lookup text_eq
server-IsHonest = record {
  login_owner = λ user s response token e f.
      ap owner (sym (ok-injective (subst (λ x. access_token x ≡ ok token) (sym (answer_eq e)) f)));
  sync_lists = λ token s response invites room e f.
      invites_lem s invites room (subst (λ x. invites_in x ≡ ok invites) (sym (answer_eq e)) f);
  leave_ends = λ token room s response e. absurd (cc);
  login_keeps = λ user s u r h. h;
  sync_keeps = λ token s u r h. h;
  leave_keeps = λ token room s u r h. refl;
  logout_keeps = λ token s u r h. h;
}

abbrev start : Run Bool
start = record { server = true; printed = []; failures = 0 }

abbrev end_of_run : Run Bool
end_of_run = (main server false (kid ∷ []) start).1

returns_zero : main server false (kid ∷ []) start ≡ (ok 0, end_of_run)
unfolding main clean_users clean_user access_token with_token pending_invites clear_listed
    reject_all reject_invite inviter_of inviter_among sender_among leave_room after_leave judge
    log_out invites_in mapping_at get_or lookup text_eq
returns_zero = refl

exit_zero_clears_example :
    All (λ user. (room : Text) → pending end_of_run.server user room ≡ false) (kid ∷ [])
exit_zero_clears_example =
    exit_zero_clears server pending owner server-IsHonest (kid ∷ []) start end_of_run refl
      returns_zero

dry_run_never_leaves_example :
    main server true (kid ∷ []) start
    ≡ main (record server { leave = λ token room s. (answered end, true) }) true (kid ∷ []) start
dry_run_never_leaves_example =
    dry_run_never_leaves server (λ token room s. (answered end, true)) (kid ∷ []) start

abbrev homeserver : Value
homeserver = obj (
    field (codes "modules")
      (arr (
        cons
          (obj (
            field (codes "module") (str (codes "synapse_guardian.Guardian")) (
              field (codes "config")
                (obj (field (codes "protected_users") (arr (cons (str kid) nil)) end)) end)))
          nil))
      end)

users_are_read : users_from_config homeserver ≡ ok (cons (str kid) nil)
unfolding users_from_config users_among protected_in list_of names_module get get_or lookup text_eq
users_are_read = refl
