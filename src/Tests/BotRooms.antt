-- ===== src/Tests/BotRooms.antt =====
-- What the plugin says of a room: `check` and `list`.
use synapse_guardian.Prelude.{
  ◌≡◌, refl, inl, true, false, none, some, List, [], ◌∷◌, ◌++◌, Text, codes, Some,
}
use synapse_guardian.Prelude.Result.{ok}
use synapse_guardian.Unicode.{ascii}
use synapse_guardian.Value.{
  str, obj, field, end, lookup, get, get_or, as_text, Fields, texts, truthy,
}
use synapse_guardian.Value.Equal.{value_eq}
use synapse_guardian.Matrix.{Event, RoomState, state_at}
use synapse_guardian.Policy.Kinds.{blocked_user}
use synapse_guardian.Policy.Patterns.{is_user_id}
use synapse_guardian.Policy.Rules.{evaluate}
use synapse_guardian.Policy.Built.{build-IsWellFormed}
use synapse_guardian.Config.{deny}
use synapse_guardian.Publish.{
  effective_rules_type, payload_of, payload_in, content_payload, without,
}
use synapse_guardian.Bot.{
  BotEntry, entries_from_state, bot_entry_of, named_entry, content_dict, bot_kinds,
}
use synapse_guardian.Bot.Chat.{said, verdict}
use synapse_guardian.Bot.Commands.{check, in_control_room}
use synapse_guardian.Bot.Checking.{check_agrees}
use synapse_guardian.Bot.Listing.{
  Line, heading, row, row_of, because, blank, not_published, list_lines, room_lines, kind_lines,
  row_lines, sorted_rows, any_clash, rows_of, sort_rows, insert_row, insert_text, is_shown, meta_of,
  published_payload, sorted_texts, static_all_lines, static_extra_lines, static_kind_lines,
}
use synapse_guardian.Bot.Links.{resolve_user_arg}
use synapse_guardian.Bot.Listing.Clashes.{clash_breaks_the_list}
use synapse_guardian.Bot.Listing.Rows.{StandsIn, list_shows_entries}
use synapse_guardian.Store.{event_type_of, find_kind}
use synapse_guardian.Tests.Opened.{policy_opened}
use synapse_guardian.Tests.Stores.{boss, room_state}
use synapse_guardian.Tests.Policies.{strict, strict-IsStable, strict_entries}
use synapse_guardian.Tests.Bots.{settings, client, client-IsFine, runtime, message, chat, bot, room}

-- the room after the module has published its rules
abbrev published_room : RoomState
published_room =
    record {
      type = effective_rules_type;
      state_key = [];
      sender = str bot;
      content = payload_of strict strict false deny;
    }
    ∷ room

payload_is_read : payload_in published_room ≡ some (payload_of strict strict false deny)
unfolding policy_opened payload_in state_at content_payload without payload_of
payload_is_read = refl

abbrev ann : Text
ann = codes "@ann:a.org"

ann_is_user : is_user_id ann ≡ true
unfolding policy_opened
ann_is_user = refl

check_agrees_example :
    check client settings message runtime ann (record chat { state = published_room }) ≡ (
      ok tt,
      said (verdict ann (evaluate strict ann) true) (record chat { state = published_room }),
    )
unfolding policy_opened in_control_room resolve_user_arg as_text
check_agrees_example =
    check_agrees client settings message runtime ann (record chat { state = published_room }) strict
      strict false deny client-IsFine refl ann_is_user payload_is_read
      (build-IsWellFormed strict_entries) strict-IsStable

abbrev ann_content : Fields
ann_content = field (codes "entity") (str ann) (field (codes "reason") (str (codes "spam")) end)

-- a rule on ann under another state key
abbrev second_block : Event
second_block = record {
  type = codes "guardian.blocked_user";
  state_key = codes "written-by-hand";
  sender = str boss;
  content = obj ann_content;
}

abbrev first_entry : BotEntry
first_entry = record {
  kind = blocked_user;
  entity = ann;
  state_key = ann;
  content = field (codes "reason") (str (codes "spam")) end;
}

abbrev second_entry : BotEntry
second_entry = record {
  kind = blocked_user;
  entity = ann;
  state_key = codes "written-by-hand";
  content = ann_content;
}

abbrev twice : RoomState
twice = room_state ++ second_block ∷ []

both_are_read : entries_from_state twice ≡ [] ++ (first_entry ∷ ([] ++ (second_entry ∷ [])))
unfolding policy_opened entries_from_state bot_entry_of named_entry content_dict bot_kinds find_kind
    event_type_of get_or lookup as_text
both_are_read = refl

clash_breaks_the_list_example : list_lines runtime.date_of twice ≡ none
unfolding value_eq
clash_breaks_the_list_example =
    clash_breaks_the_list runtime.date_of twice [] [] [] first_entry second_entry both_are_read refl
      refl refl

abbrev listed : List Line
listed =
    heading blocked_user ∷ row ann (because (str (codes "spam")) ∷ []) ∷ blank ∷ not_published ∷ []

room_is_listed : list_lines runtime.date_of room_state ≡ some listed
unfolding policy_opened list_lines room_lines kind_lines row_lines sorted_rows any_clash rows_of
    sort_rows insert_row insert_text is_shown meta_of published_payload sorted_texts
    static_all_lines static_extra_lines static_kind_lines state_at entries_from_state bot_entry_of
    named_entry content_dict bot_kinds find_kind event_type_of get get_or lookup as_text value_eq
    texts truthy
room_is_listed = refl

ann_is_read : Some (λ e. e ≡ first_entry) (entries_from_state room_state)
unfolding policy_opened entries_from_state bot_entry_of named_entry content_dict bot_kinds find_kind
    event_type_of get_or lookup as_text
ann_is_read = inl refl

list_shows_entries_example : StandsIn runtime.date_of blocked_user (row_of first_entry) listed
list_shows_entries_example =
    list_shows_entries runtime.date_of room_state listed first_entry room_is_listed ann_is_read
