-- ===== src/Guardian/Closed.antt =====
-- Why the callbacks fail closed: they load the rules first, and what is raised after that is met
-- by the rule set that the store then holds.
use synapse_guardian.Prelude.Steps.{continue}
use synapse_guardian.Prelude.{
  ◌≡◌, refl, ◌⊎◌, inl, inr, true, false, List, ◌∷◌, Option, some, arith, Text, Bool-cases,
}
use synapse_guardian.Prelude.Result.{Result, ok, err}
use synapse_guardian.Unicode.{Unicode}
use synapse_guardian.Policy.Rules.{RuleSet, is_protected}
use synapse_guardian.Store.Refresh.{get_rules}
use synapse_guardian.Store.Cache.{get_rules_fresh}
use synapse_guardian.Guardian.{
  Setup, World, Guardian, Verdict, forbidden, Raised, raised, Exec, handle, catch, start, rules,
  block, has_notifier, is_involved, closed_for, protects_cached, fail_closed,
}

module _ ⦃u : Unicode⦄ (setup : Setup) (world : World) where
  -- the rules a callback works with, and the state it has then
  abbrev pub loaded : Guardian → RuleSet
  loaded g = (get_rules setup.config world.api world.now world.later g.store).0

  unfoldable pub ready : Guardian → Guardian
  ready g = (rules setup world g).1

  pub after_rules {ℓ} :
      {A : Type ℓ} (f : RuleSet → Exec A) (g : Guardian)
      → continue (rules setup world g) f ≡ f (loaded g) (ready g)
  unfolding ready rules
  after_rules f g = refl

  ready_rules : (g : Guardian) → (ready g).store.rules ≡ some (loaded g)
  unfolding ready rules
  ready_rules g = (get_rules_fresh setup.config world.api world.now world.later g.store).0

  pub ready_involves :
      (g : Guardian) (id : Text)
      → is_protected (loaded g) id ≡ true
      → is_involved setup world (ready g).store id ≡ true
  unfolding is_involved protects_cached
  ready_involves g id h = rw (ready_rules g, h) (ground arith)

  -- a computation that forbids, or raises and leaves the state as it was
  abbrev pub Closes : Exec Verdict → Type 0
  Closes m = (g : Guardian) → ((m g).0 ≡ ok forbidden) ⊎ ((x : Raised) × (m g ≡ (err x, g)))

  pub block-Closes :
      setup.config.dry_run ≡ false
      → (kind actor target : Text) (room_id : Option Text) (why : Text)
      → Closes (block setup world kind actor target room_id why)
  unfolding block start
  block-Closes live kind actor target room_id why g = elim (Bool-cases (has_notifier setup)) [
    | inl told ↦ elim (Bool-cases world.can_start) [
      | inl can ↦ inl (rw (told, can, live) refl)
      | inr cannot ↦ inr (raised, rw (told, cannot) refl)
    ]
    | inr untold ↦ inl (rw (untold, live) refl)
  ]

  pub closed_first :
      (ids : List (Option Text)) (id : Text) (g : Guardian)
      → is_involved setup world g.store id ≡ true
      → (fail_closed setup world (some id ∷ ids) g).0 ≡ ok forbidden
  unfolding fail_closed closed_for
  closed_first ids id g h = rw h refl

  pub closed_second :
      (ids : List (Option Text)) (other id : Text) (g : Guardian)
      → is_involved setup world g.store id ≡ true
      → (fail_closed setup world (some other ∷ some id ∷ ids) g).0 ≡ ok forbidden
  unfolding fail_closed closed_for
  closed_second ids other id g h = elim (Bool-cases (is_involved setup world g.store other)) [
    | inl first ↦ rw first refl
    | inr second ↦ rw (second, h) refl
  ]

  handled :
      (r : Result Raised Verdict × Guardian) (h : Exec Verdict)
      → r.0 ≡ ok forbidden
      → (handle r h).0 ≡ ok forbidden
  handled (ok v, g) h e = e
  handled (err x, g) h e = cc

  pub catch_closed :
      (m h : Exec Verdict) (g : Guardian)
      → Closes m
      → (h g).0 ≡ ok forbidden
      → (catch m h g).0 ≡ ok forbidden
  catch_closed m h g closes closed = elim (closes g) [
    | inl done ↦ handled (m g) h done
    | inr (x, failed) ↦ rw failed closed
  ]

  pub block_closed :
      setup.config.dry_run ≡ false
      → (kind actor target : Text) (room_id : Option Text) (why : Text) (h : Exec Verdict)
        (g : Guardian)
      → (h g).0 ≡ ok forbidden
      → (handle (block setup world kind actor target room_id why g) h).0 ≡ ok forbidden
  block_closed live kind actor target room_id why h g closed =
      catch_closed (block setup world kind actor target room_id why) h g
        (block-Closes live kind actor target room_id why) closed
