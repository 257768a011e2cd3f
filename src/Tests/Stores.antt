-- ===== src/Tests/Stores.antt =====
-- store.py on a small control room.
use synapse_guardian.Prelude.{
  List, ◌≡◌, refl, sym, subst, ◌↔◌, true, ◌||◌, [], ◌∷◌, some, arith, Text, codes, text_eq, Some,
  false≢true, find_first,
}
use synapse_guardian.Unicode.{ascii}
use synapse_guardian.Value.{end, field, str, obj, get, get_or, lookup, as_text}
use synapse_guardian.TextSet.{member, discard}
use synapse_guardian.Matrix.{Event, RoomState, Api, state_at}
use synapse_guardian.Policy.Kinds.{blocked_user}
use synapse_guardian.Store.{
  authority_of, entries_from, room_rules, is_our_event_type, kind_of_type, event_type_of, refuse,
  sender_power, power_of, needed_for, entity_of, active_content, entry_of,
}
use synapse_guardian.Store.Reading.{IsTrusted, Grants, entries_from_iff}
use synapse_guardian.Store.Untrusted.{untrusted_event_changes_nothing}
use synapse_guardian.Store.Refresh.{
  new_store, invalidate, install, get_rules, check_admin, check_admins, admin_protected,
}
use synapse_guardian.Store.Cache.{
  Request, CoversStatic, after, ask, notice_event, get_rules-CoversStatic,
}
use synapse_guardian.Store.Refinement.{answers, promised, new_view, store_refines_view}
use synapse_guardian.Store.Races.{event_during_refresh_is_lost}
use synapse_guardian.Tests.Policies.{family, kid}
use synapse_guardian.Tests.Configs.{home_config}

abbrev pub boss : Text
boss = codes "@boss:h.org"

abbrev mallory : Text
mallory = codes "@mallory:evil.org"

abbrev block_ann : Event
block_ann = record {
  type = codes "guardian.blocked_user";
  state_key = codes "@ann:a.org";
  sender = str boss;
  content = obj (field (codes "reason") (str (codes "spam")) end);
}

abbrev allow_all : Event
allow_all = record {
  type = codes "guardian.allowed_user";
  state_key = codes "@mallory:evil.org";
  sender = str mallory;
  content = obj (field (codes "reason") (str (codes "me")) end);
}

abbrev pub room_state : RoomState
room_state = block_ann ∷ []

-- The server h.org, on which boss is an admin.
abbrev pub home_api : Api
home_api = record {
  is_mine = λ id. text_eq id kid || text_eq id boss;
  is_user_admin = λ id. some (text_eq id boss);
  get_room_state = λ room_id filter. some room_state;
}

entries_are_read :
    entries_from home_api (authority_of room_state) (block_ann ∷ allow_all ∷ [])
    ≡ (blocked_user, codes "@ann:a.org") ∷ []
unfolding entries_from entry_of kind_of_type event_type_of refuse sender_power power_of needed_for
    entity_of active_content authority_of state_at find_first text_eq get get_or lookup as_text
entries_are_read = refl

entries_from_iff_example :
    Some
      (λ x. x ≡ (blocked_user, codes "@ann:a.org"))
      (entries_from home_api (authority_of room_state) room_state)
    ↔ Some (Grants home_api (authority_of room_state) (blocked_user, codes "@ann:a.org")) room_state
entries_from_iff_example =
    entries_from_iff home_api (authority_of room_state) (blocked_user, codes "@ann:a.org")
      room_state

mallory_is_untrusted :
    ¬ IsTrusted home_api (authority_of room_state) (codes "guardian.allowed_user") (str mallory)
unfolding text_eq
mallory_is_untrusted t =
    absurd (false≢true (subst (λ s. home_api.is_mine s ≡ true) (sym (named t.sent_by)) t.is_local))
  where
    named : {s : Text} → str mallory ≡ str s → mallory ≡ s
    named e = cc

untrusted_event_changes_nothing_example :
    room_rules home_api (block_ann ∷ allow_all ∷ []) ≡ room_rules home_api room_state
unfolding is_our_event_type kind_of_type text_eq
untrusted_event_changes_nothing_example =
    untrusted_event_changes_nothing home_api room_state [] allow_all refl mallory_is_untrusted

get_rules-CoversStatic_example :
    CoversStatic home_config
      (get_rules home_config home_api 30000 30001
        (after home_config (ask home_api 5 7 ∷ notice_event ∷ []) new_store)).0
get_rules-CoversStatic_example =
    get_rules-CoversStatic home_config (ask home_api 5 7 ∷ notice_event ∷ []) home_api 30000 30001

admin_is_named : (check_admins home_api [] (kid ∷ boss ∷ [])).1 ≡ admin_protected boss ∷ []
unfolding check_admins check_admin member discard text_eq
admin_is_named = refl

event_during_refresh_is_lost_example :
    (get_rules home_config home_api 9000 9001
      (install home_config home_api 5 family (invalidate new_store)).0).0
    ≡ family
event_during_refresh_is_lost_example =
    event_during_refresh_is_lost home_config home_api home_api 5 9000 9001 family new_store
      (omega arith)

abbrev asked : List (Request home_config)
asked = ask home_api 1 2 ∷ notice_event ∷ ask home_api 3 4 ∷ ask home_api 5 6 ∷ []

store_refines_view_example :
    answers home_config asked new_store ≡ promised home_config asked new_view
store_refines_view_example = store_refines_view home_config asked
