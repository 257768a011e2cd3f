-- ===== src/Store/Admins.antt =====
-- Warnings about protected users that are server admins.
use synapse_guardian.Prelude.{
  ◌≡◌, refl, true, List, [], ◌∷◌, some, arith, Text, All, text_eq_iff, text_eq_refl,
}
use synapse_guardian.TextSet.{TextSet, member, member-insert, member-discard}
use synapse_guardian.Matrix.{Api}
use synapse_guardian.Store.Refresh.{check_admin, check_admins}

module _ (api : Api) where
  -- a user that is an admin stays among the warned
  still_warned :
      (id x : Text) (warned : TextSet)
      → api.is_user_admin id ≡ some true
      → member id warned ≡ true
      → member id (check_admin api warned x).0 ≡ true
  unfolding check_admin
  still_warned id x warned admin m =
      ground (arith, member-insert id x warned, member-discard id x warned, text_eq_iff id x)

  now_warned :
      (id : Text) (warned : TextSet)
      → api.is_user_admin id ≡ some true
      → member id (check_admin api warned id).0 ≡ true
  unfolding check_admin
  now_warned id warned admin = ground (arith, member-insert id id warned, text_eq_refl id)

  stays_warned :
      (id : Text) (users : List Text) (warned : TextSet)
      → api.is_user_admin id ≡ some true
      → member id warned ≡ true
      → member id (check_admins api warned users).0 ≡ true
  unfolding check_admins
  stays_warned id [] warned admin m = m
  stays_warned id (x ∷ users) warned admin m =
      stays_warned id users (check_admin api warned x).0 admin (still_warned id x warned admin m)

  -- every admin of the list has been warned of
  abbrev Settled : TextSet → List Text → Type 0
  Settled warned = All (λ id. api.is_user_admin id ≡ some true → member id warned ≡ true)

  check_admins-Settled :
      (users : List Text) (warned : TextSet) → Settled (check_admins api warned users).0 users
  unfolding check_admins
  check_admins-Settled [] warned = tt
  check_admins-Settled (x ∷ users) warned = (
    λ admin. stays_warned x users (check_admin api warned x).0 admin (now_warned x warned admin),
    check_admins-Settled users (check_admin api warned x).0,
  )

  Settled-step :
      (x : Text) (users : List Text) (warned : TextSet)
      → Settled warned users
      → Settled (check_admin api warned x).0 users
  Settled-step x [] warned h = tt
  Settled-step x (y ∷ users) warned h =
      (λ admin. still_warned y x warned admin (h.0 admin), Settled-step x users warned h.1)

  no_hook :
      (x : Text) (warned : TextSet)
      → (api.is_user_admin x ≡ some true → member x warned ≡ true)
      → (check_admin api warned x).1 ≡ []
  unfolding check_admin
  no_hook x warned h = ground arith

  quiet :
      (users : List Text) (warned : TextSet)
      → Settled warned users
      → (check_admins api warned users).1 ≡ []
  unfolding check_admins
  quiet [] warned h = refl
  quiet (x ∷ users) warned h =
      rw (no_hook x warned h.0)
        (quiet users (check_admin api warned x).0 (Settled-step x users warned h.1))

  -- A protected admin is warned of once: checking the same users again, with the same answers,
  -- notifies nobody.
  pub check_admins_warns_once :
      (warned : TextSet) (users : List Text)
      → (check_admins api (check_admins api warned users).0 users).1 ≡ []
  check_admins_warns_once warned users =
      quiet users (check_admins api warned users).0 (check_admins-Settled users warned)
