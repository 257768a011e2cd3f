-- ===== src/Tests/Guardians.antt =====
-- module.py on the configuration and the control room of the other tests.
use synapse_guardian.Prelude.{
  ◌≡◌, refl, ◌↔◌, true, false, ◌&&◌, ◌||◌, List, [], ◌∷◌, none, Text, codes, any, All, Some,
}
use synapse_guardian.Prelude.Result.{ok}
use synapse_guardian.Unicode.{ascii}
use synapse_guardian.Value.{end, field, str, obj}
use synapse_guardian.Matrix.{Event}
use synapse_guardian.Policy.Rules.{is_protected, rule_matches}
use synapse_guardian.Config.{known_rooms}
use synapse_guardian.Store.Refresh.{new_store}
use synapse_guardian.Store.Cache.{Request, after, ask, notice_event}
use synapse_guardian.Guardian.{Setup, World, found, new_guardian, forbidden}
use synapse_guardian.Guardian.Closed.{loaded}
use synapse_guardian.Guardian.Reasons.{room_reason, known_room_reason}
use synapse_guardian.Guardian.Reasons.KnownRooms.{IsLocalMember, IsAcceptable, room_reason_iff}
use synapse_guardian.Guardian.Invites.{InviteEvent, user_may_invite, federated_user_may_invite}
use synapse_guardian.Guardian.Invites.Decisions.{
  is_unwanted, verdict_if, is_federated_invite, names_unwanted, user_may_invite_lem,
  federated_user_may_invite_lem,
}
use synapse_guardian.Guardian.Joins.{user_may_join_room}
use synapse_guardian.Guardian.Joins.Decisions.{is_refused_join, user_may_join_room_lem}
use synapse_guardian.Guardian.Joins.DryRun.{fails_under, dry_run_forbids_joins_on_error}
use synapse_guardian.Guardian.Static.{static_block_holds}
use synapse_guardian.Tests.Opened.{policy_opened}
use synapse_guardian.Tests.Policies.{kid, spammer, friend}
use synapse_guardian.Tests.Configs.{home_config}
use synapse_guardian.Tests.Stores.{boss, home_api}

abbrev pub live : Setup
live = record { config = home_config; is_main = true }

abbrev pub dry : Setup
dry = record { config = record home_config { dry_run = true }; is_main = true }

abbrev pub world : World
world = record {
  api = home_api;
  now = 5;
  later = 7;
  inviter_of = λ user_id room_id. found (str spammer);
  can_start = true;
}

-- a world in which nothing can be read
abbrev pub broken : World
broken = record world { api = record home_api { get_room_state = λ room_id filter. none } }

user_may_invite_lem_example :
    (user_may_invite live world spammer kid (codes "!r:h.org") new_guardian).0
    ≡ ok (
        verdict_if (
          is_unwanted (loaded live world new_guardian) kid spammer
          || is_unwanted (loaded live world new_guardian) spammer kid))
user_may_invite_lem_example =
    user_may_invite_lem live world refl spammer kid (codes "!r:h.org") new_guardian

abbrev pub invite : InviteEvent
invite = record {
  type = codes "m.room.member";
  content = obj (field (codes "membership") (str (codes "invite")) end);
  state_key = str kid;
  sender = str spammer;
  room_id = codes "!r:good.org";
}

federated_user_may_invite_lem_example :
    (federated_user_may_invite live broken invite new_guardian).0
    ≡ ok (
        verdict_if
          (is_federated_invite invite && names_unwanted (loaded live broken new_guardian) invite))
federated_user_may_invite_lem_example =
    federated_user_may_invite_lem live broken refl invite new_guardian

user_may_join_room_lem_example :
    (user_may_join_room live world kid (codes "!r:h.org") true new_guardian).0
    ≡ ok (
        verdict_if (
          is_protected (loaded live world new_guardian) kid
          && is_refused_join live world
              (loaded live world new_guardian)
              kid
              (codes "!r:h.org")
              true))
user_may_join_room_lem_example =
    user_may_join_room_lem live world refl kid (codes "!r:h.org") true new_guardian

abbrev joined : Text → Event
joined id = record {
  type = codes "m.room.member";
  state_key = id;
  sender = str id;
  content = obj (field (codes "membership") (str (codes "join")) end);
}

room_reason_iff_example :
    (room_reason home_api (loaded live world new_guardian) kid (joined boss ∷ joined friend ∷ [])
      ≡ ok none)
    ↔ (Some (IsLocalMember home_api) (joined boss ∷ joined friend ∷ [])
        × All
            (IsAcceptable (loaded live world new_guardian) kid)
            (joined boss ∷ joined friend ∷ []))
room_reason_iff_example =
    room_reason_iff home_api (loaded live world new_guardian) kid (joined boss ∷ joined friend ∷ [])

dry_run_forbids_joins_on_error_example :
    (user_may_join_room dry broken kid (codes "!r:h.org") false new_guardian).0
    ≡ ok (
        verdict_if (
          is_protected (loaded dry broken new_guardian) kid
          && fails_under known_rooms (
              known_room_reason broken.api
                (loaded dry broken new_guardian)
                kid
                (codes "!r:h.org"))))
dry_run_forbids_joins_on_error_example =
    dry_run_forbids_joins_on_error dry broken refl refl kid (codes "!r:h.org") false new_guardian

kid-is_protected : is_protected home_config.static_rules kid ≡ true
unfolding policy_opened
kid-is_protected = refl

spammer_is_blocked : any (rule_matches spammer) home_config.static_rules.blocked_users ≡ true
unfolding policy_opened
spammer_is_blocked = refl

abbrev history : List (Request home_config)
history = ask home_api 1 2 ∷ notice_event ∷ []

static_block_holds_example :
    (user_may_invite live broken spammer kid
      (codes "!r:h.org")
      (record new_guardian { store = after home_config history new_store })).0
    ≡ ok forbidden
static_block_holds_example =
    static_block_holds live broken history
      (record new_guardian { store = after home_config history new_store }) spammer kid
      (codes "!r:h.org") refl refl kid-is_protected spammer_is_blocked
