-- ===== src/Guardian.antt =====
-- synapse_guardian/module.py: the callbacks that Synapse makes. A callback is a computation on the
-- module's state that may raise; what it starts in the background is a list of tasks.
pub mod Invites
pub mod Joins
pub mod Rooms
pub mod Events
pub mod Reasons
pub mod Closed
pub mod Static
pub mod WarmUp
pub mod Startup
pub mod Background
use synapse_guardian.Prelude.Steps.{continue, ◌>>=◌}
use synapse_guardian.Prelude.{
  ℕ, Bool, true, false, not, ◌&&◌, ◌||◌, List, [], ◌∷◌, ◌++◌, Option, none, some, if◌then◌else◌,
  Text, codes, is_given,
}
use synapse_guardian.Prelude.Result.{Result, ok, err}
use synapse_guardian.Unicode.{Unicode}
use synapse_guardian.Value.{Value}
use synapse_guardian.Matrix.{Api}
use synapse_guardian.Policy.Rules.{RuleSet, is_protected}
use synapse_guardian.Config.{Config, JoinPolicy}
use synapse_guardian.Store.Refresh.{
  Store, new_store, Hook, admin_protected, rules_loaded, get_rules,
}

-- What `store.get_invite_for_local_user_in_room` does: it is missing, it raises, or it gives the
-- sender of an invite (`null` where there is no invite).
pub data Lookup : Type 0 where
  unavailable raises : Lookup
  found : Value → Lookup

-- What a callback meets outside the module: the API, the clock before and after a refresh, the
-- look-up of inviters, and whether a background process can be started.
pub record World : Type 0 where
  pub api : Api
  pub now : ℕ
  pub later : ℕ
  pub inviter_of : Text → Text → Lookup
  pub can_start : Bool

-- An argument of `run_as_background_process`.
pub data Task : Type 0 where
  notify : Text → Text → Text → Option Text → Text → Bool → Task
  warn_admin : Text → Task
  publish : RuleSet → RuleSet → Bool → JoinPolicy → Task
  reject_invite : Text → Text → Text → Task

-- How the module was set up: `is_main` where `worker_app` is None.
pub record Setup : Type 0 where
  pub config : Config
  pub is_main : Bool

pub record Guardian : Type 0 where
  pub store : Store
  pub warned_no_inviter_lookup : Bool
  pub tasks : List Task

abbrev pub new_guardian : Guardian
new_guardian = record { store = new_store; warned_no_inviter_lookup = false; tasks = [] }

pub data Verdict : Type 0 where
  not_spam forbidden : Verdict

pub data Raised : Type 0 where
  raised : Raised

abbrev pub Exec {ℓ} : Type ℓ → Type ℓ
Exec A = Guardian → Result Raised A × Guardian

module _ {ℓ} {A : Type ℓ} where
  abbrev pub pure : A → Exec A
  pure a g = (ok a, g)

  abbrev pub handle :
      Result Raised A × Guardian
      → (Guardian → Result Raised A × Guardian)
      → Result Raised A × Guardian
  handle (ok a, g) h = (ok a, g)
  handle (err e, g) h = h g

  -- try: m; except Exception: h
  abbrev pub catch : Exec A → Exec A → Exec A
  catch m h g = handle (m g) h

module _ (setup : Setup) where
  -- self._notifier is not None
  abbrev pub has_notifier : Bool
  has_notifier = setup.config.notify_room

  -- self._publisher is not None
  abbrev pub has_publisher : Bool
  has_publisher =
      is_given setup.config.control_room && is_given setup.config.notify_user && setup.is_main

  -- `_on_admin_protected` and `_on_rules_loaded`
  unfoldable pub tasks_of : Hook → List Task
  tasks_of (admin_protected user_id) = if has_notifier then warn_admin user_id ∷ [] else []
  tasks_of (rules_loaded rules) =
      if has_publisher
      then publish setup.config.static_rules rules setup.config.dry_run setup.config.uninvited_joins
        ∷ []
      else []

  unfoldable pub all_tasks : List Hook → List Task
  unfolding tasks_of
  all_tasks [] = []
  all_tasks (h ∷ hooks) = tasks_of h ++ all_tasks hooks

  -- self._config.dry_run decides the verdict
  abbrev pub block_verdict : Verdict
  block_verdict = if setup.config.dry_run then not_spam else forbidden

module _ ⦃u : Unicode⦄ (setup : Setup) (world : World) where
  -- run_as_background_process
  unfoldable pub start : Task → Exec (Unit {0})
  start task g =
      if world.can_start
      then (ok tt, record g { tasks = g.tasks ++ task ∷ [] })
      else (err raised, g)

  -- `_rules`. What a hook raises is caught in `refresh`.
  unfoldable pub rules : Exec RuleSet
  rules g =
      let (loaded, store', hooks) =
        get_rules setup.config world.api world.now world.later g.store in
      let started : List Task = if world.can_start then all_tasks setup hooks else [] in
      (ok loaded, record g { store = store'; tasks = g.tasks ++ started })

  -- `_block`
  unfoldable pub block : Text → Text → Text → Option Text → Text → Exec Verdict
  block kind actor target room_id rule g =
      if has_notifier setup
      then (start (notify kind actor target room_id rule setup.config.dry_run) >>= λ t.
            pure (block_verdict setup))
          g
      else (ok (block_verdict setup), g)

  unfoldable pub protects_cached : Option RuleSet → Text → Bool
  protects_cached none id = false
  protects_cached (some cached) id = is_protected cached id

  -- `_fail_closed_if_protected` for one user
  unfoldable pub is_involved : Store → Text → Bool
  unfolding protects_cached
  is_involved store id = is_protected setup.config.static_rules id || protects_cached store.rules id

  unfoldable pub closed_for : List (Option Text) → Store → Verdict
  closed_for [] store = not_spam
  closed_for (none ∷ ids) store = closed_for ids store
  closed_for (some id ∷ ids) store =
      let rest = closed_for ids store in if is_involved store id then forbidden else rest

  -- `_fail_closed_if_protected`
  unfoldable pub fail_closed : List (Option Text) → Exec Verdict
  unfolding closed_for
  fail_closed ids g = (ok (closed_for ids g.store), g)
