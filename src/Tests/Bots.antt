-- ===== src/Tests/Bots.antt =====
-- The plugin on the control room of the other tests.
use synapse_guardian.Prelude.{
  ◌≡◌, ◌⊎◌, true, refl, [], ◌∷◌, ◌++◌, none, some, Text, codes, text_eq, map, All,
}
use synapse_guardian.Unicode.{ascii, lstrip}
use synapse_guardian.Value.{strip, str, obj, int, field, end, get, get_or, lookup}
use synapse_guardian.Value.Int.{pos}
use synapse_guardian.Matrix.{Event, RoomState}
use synapse_guardian.Policy.Patterns.{validate_pattern}
use synapse_guardian.Prelude.Result.{Result, ok}
use synapse_guardian.Policy.Kinds.{Kind, blocked_user, allowed_server}
use synapse_guardian.Store.{authority_of, entries_from, refuse, sender_power}
use synapse_guardian.Policy.Power.{
  user_power_level, event_power_level, supports_creator_power, is_creator, creators, int_or, nested,
  old_versions,
}
use synapse_guardian.Bot.{entries_from_state, content_dict, bot_power_of, bot_needed_for}
use synapse_guardian.Bot.Links.{
  Runtime, resolve_user_arg, find_links, link_at, link_attributes, link_from_href, until,
  until_close, skip_prefix, user_links, user_id_from_href, candidate_of, matrix_to_id, before_query,
  choose_link, find_wanted, strip_tags, strip_sigils,
}
use synapse_guardian.Bot.Links.Users.{Resolves, links_of, resolve_user_arg_lem}
use synapse_guardian.Bot.Chat.{Settings, Client, Message, Chat, Call, blocks}
use synapse_guardian.Bot.Commands.{run, in_control_room, remove, add}
use synapse_guardian.Bot.Commands.Steps.{IsAllowed, Sends, IsFine}
use synapse_guardian.Bot.Commands.Rights.{commands_are_rightful}
use synapse_guardian.Bot.Agreement.{entry_pair, plugin_reads_the_same}
use synapse_guardian.Bot.Removal.{remove_leaves_none}
use synapse_guardian.Tests.Opened.{policy_opened}
use synapse_guardian.Tests.Stores.{boss, room_state, home_api}

abbrev pub bot : Text
bot = codes "@bot:h.org"

-- power levels under which boss may send the rules
abbrev levels : Event
levels = record {
  type = codes "m.room.power_levels";
  state_key = [];
  sender = str boss;
  content = obj (field (codes "users") (obj (field boss (int (pos 100)) end)) end);
}

abbrev pub room : RoomState
room = levels ∷ room_state

plugin_reads_the_same_example :
    map entry_pair (entries_from_state room_state)
    ≡ entries_from home_api (authority_of room_state) room_state
unfolding refuse sender_power text_eq
plugin_reads_the_same_example =
    plugin_reads_the_same home_api (authority_of room_state) room_state (refl, tt)

abbrev pub control_room : Text
control_room = codes "!control:h.org"

abbrev pub settings : Settings
settings = record { control_room = some control_room; admins = boss ∷ []; notify_secret = none }

abbrev pub client : Client
client = record { mxid = bot; read_error = λ state. none; send_error = λ e state. none }

pub client-IsFine : IsFine client
unfolding IsFine
client-IsFine = (λ state. refl, λ e state. refl)

abbrev pub runtime : Runtime
runtime = record {
  date_of = λ ts. some (codes "2026-01-01");
  unescape = λ text. text;
  unquote = λ text. text;
}

abbrev pill : Text
pill =
    codes "allow <a href="
    ++ b'"' ∷ codes "https://matrix.to/#/@ann:a.org?via=a.org"
    ++ b'"' ∷ codes ">Ann</a>"

abbrev pub message : Message
message = record {
  room_id = control_room;
  sender = boss;
  formatted_body = some (str pill);
  now = pos 7;
}

abbrev pub chat : Chat
chat = record { state = room; replies = [] }

pill_is_read : resolve_user_arg runtime (codes "Ann") (some pill) ≡ codes "@ann:a.org"
unfolding policy_opened resolve_user_arg find_links link_at link_attributes link_from_href until
    until_close skip_prefix user_links user_id_from_href candidate_of matrix_to_id before_query
    choose_link find_wanted strip_tags strip_sigils strip lstrip
pill_is_read = refl

resolve_user_arg_lem_example :
    Resolves runtime
      (codes "Ann")
      (links_of runtime (some pill))
      (resolve_user_arg runtime (codes "Ann") (some pill))
resolve_user_arg_lem_example = resolve_user_arg_lem runtime (codes "Ann") (some pill)

abbrev block_ann_again : Call
block_ann_again = blocks (codes "user") (codes "Ann") none

abbrev after_block : RoomState
after_block = (run client settings message runtime block_ann_again chat).1.state

commands_are_rightful_example :
    (after_block ≡ room)
    ⊎ ((in_control_room client settings message ≡ true)
        × ((kind : Kind) × IsAllowed client settings message kind room
            × Sends client kind room after_block))
commands_are_rightful_example =
    commands_are_rightful client settings message runtime block_ann_again chat

abbrev elsewhere : Message
elsewhere = record message { room_id = codes "!other:h.org" }

boss_may : (kind : Kind) → IsAllowed client settings message kind room
unfolding policy_opened IsAllowed bot_needed_for bot_power_of event_power_level user_power_level
    int_or nested get get_or lookup text_eq content_dict supports_creator_power is_creator creators
    old_versions
boss_may kind = (refl, refl)

abbrev after_remove : Result Text (Unit {0}) × Chat
after_remove = remove client settings message blocked_user (codes "@Ann:a.org") chat

remove_leaves_none_example :
    (after_remove.0 ≡ ok tt)
    × All
        (λ entry. ¬ (
          (entry.kind ≡ blocked_user)
          × (ascii.lower entry.entity ≡ ascii.lower (codes "@Ann:a.org"))))
        (entries_from_state after_remove.1.state)
remove_leaves_none_example =
    remove_leaves_none client client-IsFine settings message blocked_user (codes "@Ann:a.org") chat
      (boss_may blocked_user)

abbrev after_add : Result Text (Unit {0}) × Chat
after_add = add client settings message allowed_server (codes "good.org") none chat

good_is_valid : validate_pattern allowed_server (codes "good.org") ≡ ok tt
unfolding policy_opened
good_is_valid = refl
