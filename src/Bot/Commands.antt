-- ===== src/Bot/Commands.antt =====
-- bot/guardian_bot/__init__.py: the commands, from the message to the reply, with who may give them where.
pub mod Steps
pub mod Rights
use synapse_guardian.Prelude.Steps.{continue, ◌>>=◌}
use synapse_guardian.Prelude.{
  Bool, true, false, ◌&&◌, ◌||◌, not, List, [], ◌∷◌, ◌++◌, Option, none, some, if◌then◌else◌, Text,
  codes, text_eq, any, after_first, map,
}
use synapse_guardian.Prelude.Result.{Result, ok, err}
use synapse_guardian.Unicode.{Unicode}
use synapse_guardian.Value.Int.{ℤ, leb_ℤ}
use synapse_guardian.Value.{Value, str, obj, Fields, end, field, get, as_text}
use synapse_guardian.Matrix.{Event, RoomState, state_at}
use synapse_guardian.Policy.Kinds.{
  Kind, protected_user, allowed_server, allowed_user, blocked_user, blocked_server,
}
use synapse_guardian.Policy.Patterns.{Invalid, validate_pattern, is_user_id}
use synapse_guardian.Policy.Rules.{Decision, RuleSet, Entry, build, evaluate}
use synapse_guardian.Policy.Payload.{from_payload}
use synapse_guardian.Config.{set_or_none}
use synapse_guardian.Store.{event_type_of}
use synapse_guardian.Publish.{effective_rules_type}
use synapse_guardian.Bot.{
  BotEntry, state_key_for, content_dict, entries_from_state, send_state_event, entry_content,
  is_empty_list, keys_of, bot_power_of, bot_needed_for,
}
use synapse_guardian.Bot.Chat.{
  Settings, Client, Message, Reply, Call, Chat, Act, done, said, reply, raise, deny_with, not_admin,
  unreadable, lacks_power, refused, added, no_entry, removed, not_local, protects_self, usage,
  not_a_user, verdict, listing, protects, unprotects, allows, blocks, removes, unblocks, lists,
  checks,
}
use synapse_guardian.Bot.Links.{Runtime, resolve_user_arg}
use synapse_guardian.Bot.Listing.{Line, published_payload, list_lines}
use synapse_guardian.Bot.Requests.{
  get_state, server_name, is_local, check_user, add_checked, remove_read, list_state,
}

-- VERB_KINDS and REMOVE_KINDS
abbrev pub VerbTable : Type 0
VerbTable = List (Text × Text × Kind)

abbrev pub verb_kinds : VerbTable
verb_kinds =
    (codes "allow", codes "server", allowed_server)
    ∷ (codes "allow", codes "user", allowed_user)
    ∷ (codes "block", codes "server", blocked_server)
    ∷ (codes "block", codes "user", blocked_user)
    ∷ []

abbrev pub remove_kinds : VerbTable
remove_kinds =
    (codes "remove", codes "server", allowed_server)
    ∷ (codes "remove", codes "user", allowed_user)
    ∷ (codes "unblock", codes "server", blocked_server)
    ∷ (codes "unblock", codes "user", blocked_user)
    ∷ []

unfoldable pub find_verb : Text → Text → VerbTable → Option Kind
find_verb verb what [] = none
find_verb verb what ((v, w, kind) ∷ table) =
    let later = find_verb verb what table in
    if text_eq v verb && text_eq w what then some kind else later

-- `formatted_body_of`
abbrev pub formatted_body_of : Message → Option Text
formatted_body_of evt = elim evt.formatted_body [ none ↦ none | some body ↦ as_text body ]

module _ ⦃u : Unicode⦄ (evt : Message) (d : Runtime) where
  abbrev pub resolve : Text → Text
  resolve arg = resolve_user_arg d arg (formatted_body_of evt)

  abbrev pub pattern_of : Text → Text → Text
  pattern_of what pattern = if text_eq what (codes "user") then resolve pattern else pattern

module _ ⦃u : Unicode⦄ (client : Client) (settings : Settings) (evt : Message) where
  -- `in_control_room`
  unfoldable pub in_control_room : Bool
  in_control_room = elim (set_or_none settings.control_room) [
    | none ↦ false
    | some room ↦ text_eq evt.room_id room
  ]

  abbrev pub may_command : Bool
  may_command = is_empty_list settings.admins || any (text_eq evt.sender) settings.admins

  -- the end of `may_mutate`, when the state has been read
  unfoldable pub may_send : Kind → Act Bool
  may_send kind c =
      let needed = bot_needed_for c.state kind in
      let have = bot_power_of c.state evt.sender in
      if leb_ℤ needed have then (ok true, c) else deny_with (lacks_power needed have) c

  -- `may_mutate`
  unfoldable pub may_mutate : Kind → Act Bool
  may_mutate kind c =
      if may_command
      then elim (client.read_error c.state) [
        | some why ↦ deny_with (unreadable why) c
        | none ↦ may_send kind c
      ]
      else deny_with not_admin c

  -- `add`
  unfoldable pub add : Kind → Text → Option Text → Act (Unit {0})
  add kind entity reason = may_mutate kind >>= λ allowed.
      if allowed then add_checked client evt kind entity reason else done

  -- `remove`
  unfoldable pub remove : Kind → Text → Act (Unit {0})
  remove kind entity =
      may_mutate kind >>= λ allowed. if allowed then remove_read client kind entity else done

  module _ (d : Runtime) where
    unfoldable pub protect_user : Text → Option Text → Act (Unit {0})
    protect_user mxid reason =
        if is_local client mxid
        then if text_eq evt.sender mxid then reply protects_self else add protected_user mxid reason
        else reply (not_local mxid (server_name client))

    -- `protect`
    unfoldable pub protect : Text → Option Text → Act (Unit {0})
    protect arg reason = if in_control_room then protect_user (resolve evt d arg) reason else done

    -- `unprotect`
    unfoldable pub unprotect : Text → Act (Unit {0})
    unprotect arg = if in_control_room then remove protected_user (resolve evt d arg) else done

    unfoldable pub run_verb : Text → Text → Text → Option Text → Act (Unit {0})
    run_verb verb what pattern reason = elim (find_verb verb what verb_kinds) [
      | some kind ↦ add kind pattern reason
      | none ↦ elim (find_verb verb what remove_kinds) [
        | some kind ↦ remove kind pattern
        | none ↦ reply (usage verb)
      ]
    ]

    -- `_verb`
    unfoldable pub verb_cmd : Text → Text → Text → Option Text → Act (Unit {0})
    verb_cmd verb what pattern reason =
        let lowered = u.lower what in
        if in_control_room
        then run_verb verb lowered (pattern_of evt d lowered pattern) reason
        else done

    -- `check`
    unfoldable pub check : Text → Act (Unit {0})
    check arg = if in_control_room then check_user client (resolve evt d arg) else done

    -- `list_cmd`
    unfoldable pub list_cmd : Act (Unit {0})
    list_cmd = if in_control_room then get_state client >>= list_state d else done

    -- the command of a message
    unfoldable pub run : Call → Act (Unit {0})
    run (protects arg reason) = protect arg reason
    run (unprotects arg) = unprotect arg
    run (allows what pattern reason) = verb_cmd (codes "allow") what pattern reason
    run (blocks what pattern reason) = verb_cmd (codes "block") what pattern reason
    run (removes what pattern) = verb_cmd (codes "remove") what pattern none
    run (unblocks what pattern) = verb_cmd (codes "unblock") what pattern none
    run lists = list_cmd
    run (checks arg) = check arg
