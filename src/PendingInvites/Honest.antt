-- ===== src/PendingInvites/Honest.antt =====
-- What the script relies on, and how a chain of its steps returns.
use synapse_guardian.Prelude.Steps.{continue}
use synapse_guardian.Prelude.{ℕ, zero, suc, ◌≡◌, refl, sym, ap, Bool, false, arith, Text, is_given}
use synapse_guardian.Prelude.Result.{Result, ok, err}
use synapse_guardian.Value.{Value, Fields, lookup}
use synapse_guardian.PendingInvites.{
  Answer, answered, http_error, unreachable, Server, Stopped, Run, Script, invites_in, access_token,
  fatal, given, exit_code,
}

-- What the script relies on: `pending` says which invites a user has, and `owner` whose token a token is.
-- A sync lists the user's invites, a leave that is answered ends the invite, and no request of the script
-- brings an invite.
pub record IsHonest {S : Type 0} (server : Server S) (pending : S → Text → Text → Bool)
    (owner : Value → Text) : Type 0 where
  pub login_owner :
      (user : Text) (s : S) (response : Fields) (token : Value)
      → (server.login user s).0 ≡ answered response
      → access_token response ≡ ok token
      → owner token ≡ user
  pub sync_lists :
      (token : Value) (s : S) (response invites : Fields) (room : Text)
      → (server.sync token s).0 ≡ answered response
      → invites_in response ≡ ok invites
      → is_given (lookup room invites) ≡ pending s (owner token) room
  pub leave_ends :
      (token : Value) (room : Text) (s : S) (response : Fields)
      → (server.leave token room s).0 ≡ answered response
      → pending (server.leave token room s).1 (owner token) room ≡ false
  pub login_keeps :
      (user : Text) (s : S) (u r : Text)
      → pending s u r ≡ false
      → pending (server.login user s).1 u r ≡ false
  pub sync_keeps :
      (token : Value) (s : S) (u r : Text)
      → pending s u r ≡ false
      → pending (server.sync token s).1 u r ≡ false
  pub leave_keeps :
      (token : Value) (room : Text) (s : S) (u r : Text)
      → pending s u r ≡ false
      → pending (server.leave token room s).1 u r ≡ false
  pub logout_keeps :
      (token : Value) (s : S) (u r : Text)
      → pending s u r ≡ false
      → pending (server.logout token s).1 u r ≡ false

pub no_failures : (n : ℕ) → exit_code n ≡ 0 → n ≡ 0
no_failures zero h = refl
no_failures (suc n) h = absurd (omega (arith, h))

module _ {S : Type 0} where
  -- a chain that returns has returned at its first step
  pub continue-ok :
      {A : Type 0} {B : Type 0} (first : Result Stopped A × Run S) (next : A → Script S B) (b : B)
      (r' : Run S)
      → continue first next ≡ (ok b, r')
      → (a : A) × (r : Run S) × (first ≡ (ok a, r)) × (next a r ≡ (ok b, r'))
  continue-ok (err why, r) next b r' h = absurd (cc)
  continue-ok (ok a, r) next b r' h = (a, r, refl, h)

  -- a sync whose answer could be read
  pub listed_at :
      (answer : Answer) (r r' : Run S) (invites : Fields)
      → continue {S = Run S} (fatal answer, r) (λ response. given (invites_in response))
        ≡ (ok invites, r')
      → (response : Fields) × (answer ≡ answered response)
        × (invites_in response ≡ ok invites)
        × (r' ≡ r)
  listed_at (answered response) r r' invites h = (
    response,
    refl,
    ap (λ (x : Result Stopped Fields × Run S). x.0) h,
    sym (ap (λ (x : Result Stopped Fields × Run S). x.1) h),
  )
  listed_at (http_error detail) r r' invites h = absurd (cc)
  listed_at (unreachable why) r r' invites h = absurd (cc)

  -- a login whose answer could be read
  pub logged_at :
      (answer : Answer) (r r' : Run S) (token : Value)
      → continue {S = Run S} (fatal answer, r) (λ login. given (access_token login))
        ≡ (ok token, r')
      → (response : Fields) × (answer ≡ answered response)
        × (access_token response ≡ ok token)
        × (r' ≡ r)
  logged_at (answered response) r r' token h = (
    response,
    refl,
    ap (λ (x : Result Stopped Value × Run S). x.0) h,
    sym (ap (λ (x : Result Stopped Value × Run S). x.1) h),
  )
  logged_at (http_error detail) r r' token h = absurd (cc)
  logged_at (unreachable why) r r' token h = absurd (cc)
