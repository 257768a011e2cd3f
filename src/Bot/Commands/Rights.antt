-- ===== src/Bot/Commands/Rights.antt =====
-- A command gives nobody a right that they do not have.
use synapse_guardian.Prelude.Steps.{continue}
use synapse_guardian.Prelude.{
  ◌≡◌, refl, inl, inr, ◌⊎◌, Bool, true, false, Option, none, Text, text_eq, codes, Option-cases,
  Bool-cases, if◌then◌else◌,
}
use synapse_guardian.Prelude.Result.{ok}
use synapse_guardian.Unicode.{Unicode}
use synapse_guardian.Matrix.{RoomState}
use synapse_guardian.Policy.Kinds.{Kind, protected_user}
use synapse_guardian.Policy.Patterns.{is_user_id}
use synapse_guardian.Bot.Links.{Runtime}
use synapse_guardian.Bot.Listing.{list_lines}
use synapse_guardian.Bot.Chat.{
  Client, Settings, Message, Chat, Call, protects, unprotects, allows, blocks, removes, unblocks,
  lists, checks, Act, done,
}
use synapse_guardian.Bot.Requests.{get_state, check_state, check_user, list_state, is_local}
use synapse_guardian.Bot.Commands.{
  in_control_room, remove, protect_user, protect, unprotect, find_verb, verb_kinds, remove_kinds,
  run_verb, verb_cmd, pattern_of, check, list_cmd, run, resolve,
}
use synapse_guardian.Bot.Commands.Steps.{
  IsAllowed, Sends, IsRightful, add-IsRightful, remove-IsRightful,
}

module _ ⦃u : Unicode⦄ (client : Client) (settings : Settings) (evt : Message) (d : Runtime) where
  abbrev Rightful : Chat → RoomState → Type 0
  Rightful c state' =
      (state' ≡ c.state)
      ⊎ ((in_control_room client settings evt ≡ true)
          × ((kind : Kind) × IsAllowed client settings evt kind c.state
              × Sends client kind c.state state'))

  rightful :
      (kind : Kind) (c : Chat) (state' : RoomState)
      → in_control_room client settings evt ≡ true
      → IsRightful client settings evt kind c state'
      → Rightful c state'
  unfolding IsRightful
  rightful kind c state' here (inl same) = inl same
  rightful kind c state' here (inr (allowed, sent)) = inr (here, (kind, allowed, sent))

  guarded_at :
      (here : Bool) (act : Act (Unit {0})) (c : Chat)
      → in_control_room client settings evt ≡ here
      → (in_control_room client settings evt ≡ true → Rightful c (act c).1.state)
      → Rightful c ((if here then act else done) c).1.state
  guarded_at true act c inside then_rightful = then_rightful inside
  guarded_at false act c outside then_rightful = inl refl

  -- a command that looks only at the control room
  guarded :
      (act : Act (Unit {0})) (c : Chat)
      → (in_control_room client settings evt ≡ true → Rightful c (act c).1.state)
      → Rightful c ((if in_control_room client settings evt then act else done) c).1.state
  guarded act c inside = guarded_at (in_control_room client settings evt) act c refl inside

  protect_user_lem :
      (mxid : Text) (reason : Option Text) (c : Chat)
      → in_control_room client settings evt ≡ true
      → Rightful c (protect_user client settings evt d mxid reason c).1.state
  unfolding protect_user
  protect_user_lem mxid reason c here = elim (Bool-cases (is_local client mxid)) [
    | inr remote ↦ inl (rw (remote, protect_user) refl)
    | inl local ↦ elim (Bool-cases (text_eq evt.sender mxid)) [
      | inl self ↦ inl (rw (local, self, protect_user) refl)
      | inr another ↦
          rw (local, another, protect_user)
            (rightful protected_user c _ here
              (add-IsRightful client settings evt protected_user mxid reason c))
    ]
  ]

  run_verb_lem :
      (verb what pattern : Text) (reason : Option Text) (c : Chat)
      → in_control_room client settings evt ≡ true
      → Rightful c (run_verb client settings evt d verb what pattern reason c).1.state
  unfolding run_verb
  run_verb_lem verb what pattern reason c here =
      elim (Option-cases (find_verb verb what verb_kinds)) [
        | inr (kind, adds) ↦
            rw (adds, run_verb)
              (rightful kind c _ here (add-IsRightful client settings evt kind pattern reason c))
        | inl no_add ↦ elim (Option-cases (find_verb verb what remove_kinds)) [
          | inr (kind, clears) ↦
              rw (no_add, clears, run_verb)
                (rightful kind c _ here (remove-IsRightful client settings evt kind pattern c))
          | inl unknown ↦ inl (rw (no_add, unknown, run_verb) refl)
        ]
      ]

  -- Reading the room and answering leaves it as it is.
  reading_lem :
      (next : RoomState → Act (Unit {0})) (c : Chat)
      → ((state : RoomState) (c' : Chat) → (next state c').1.state ≡ c'.state)
      → (continue (get_state client c) next).1.state ≡ c.state
  unfolding get_state
  reading_lem next c quiet = elim (Option-cases (client.read_error c.state)) [
    | inl fine ↦ rw (fine, get_state) (quiet c.state c)
    | inr (why, failed) ↦ rw (failed, get_state) refl
  ]

  list_state_lem : (state : RoomState) (c : Chat) → (list_state d state c).1.state ≡ c.state
  unfolding list_state
  list_state_lem state c = elim (Option-cases (list_lines d.date_of state)) [
    | inl raises ↦ rw (raises, list_state) refl
    | inr (lines, listed) ↦ rw (listed, list_state) refl
  ]

  check_user_lem : (mxid : Text) (c : Chat) → (check_user client mxid c).1.state ≡ c.state
  unfolding check_user check_state
  check_user_lem mxid c = elim (Bool-cases (is_user_id mxid)) [
    | inr no_user ↦ rw (no_user, check_user) refl
    | inl user ↦ rw (user, check_user) (reading_lem (check_state mxid) c (λ state c'. refl))
  ]

  verb_cmd_lem :
      (verb what pattern : Text) (reason : Option Text) (c : Chat)
      → Rightful c (verb_cmd client settings evt d verb what pattern reason c).1.state
  unfolding verb_cmd
  verb_cmd_lem verb what pattern reason c =
      let lowered = u.lower what in
      let named = pattern_of evt d lowered pattern in
      guarded (run_verb client settings evt d verb lowered named reason) c
        (run_verb_lem verb lowered named reason c)

  -- A command changes the room's state only if it was given in the control room, by a sender whom the
  -- configuration admits and whose power suffices to send events of one kind of rule, and then only by
  -- events of that kind, which the plugin sends. Otherwise the state is as it was, whatever is raised.
  pub commands_are_rightful :
      (call : Call) (c : Chat)
      → (let state' = (run client settings evt d call c).1.state in
          (state' ≡ c.state)
          ⊎ ((in_control_room client settings evt ≡ true)
              × ((kind : Kind) × IsAllowed client settings evt kind c.state
                  × Sends client kind c.state state')))
  unfolding run protect unprotect check list_cmd
  commands_are_rightful (protects arg reason) c =
      let mxid = resolve evt d arg in
      guarded (protect_user client settings evt d mxid reason) c (protect_user_lem mxid reason c)
  commands_are_rightful (unprotects arg) c =
      let mxid = resolve evt d arg in
      guarded (remove client settings evt protected_user mxid) c (λ here.
        rightful protected_user c _ here
          (remove-IsRightful client settings evt protected_user mxid c))
  commands_are_rightful (allows what pattern reason) c =
      verb_cmd_lem (codes "allow") what pattern reason c
  commands_are_rightful (blocks what pattern reason) c =
      verb_cmd_lem (codes "block") what pattern reason c
  commands_are_rightful (removes what pattern) c = verb_cmd_lem (codes "remove") what pattern none c
  commands_are_rightful (unblocks what pattern) c =
      verb_cmd_lem (codes "unblock") what pattern none c
  commands_are_rightful lists c =
      guarded (λ c'. continue (get_state client c') (list_state d)) c
        (λ here. inl (reading_lem (list_state d) c list_state_lem))
  commands_are_rightful (checks arg) c =
      let mxid = resolve evt d arg in
      guarded (check_user client mxid) c (λ here. inl (check_user_lem mxid c))

  -- A command outside the control room does nothing and is not answered.
  pub elsewhere_is_ignored :
      (call : Call) (c : Chat)
      → in_control_room client settings evt ≡ false
      → run client settings evt d call c ≡ (ok tt, c)
  unfolding run protect unprotect check list_cmd verb_cmd
  elsewhere_is_ignored (protects arg reason) c elsewhere = rw elsewhere refl
  elsewhere_is_ignored (unprotects arg) c elsewhere = rw elsewhere refl
  elsewhere_is_ignored (allows what pattern reason) c elsewhere = rw elsewhere refl
  elsewhere_is_ignored (blocks what pattern reason) c elsewhere = rw elsewhere refl
  elsewhere_is_ignored (removes what pattern) c elsewhere = rw elsewhere refl
  elsewhere_is_ignored (unblocks what pattern) c elsewhere = rw elsewhere refl
  elsewhere_is_ignored lists c elsewhere = rw elsewhere refl
  elsewhere_is_ignored (checks arg) c elsewhere = rw elsewhere refl
