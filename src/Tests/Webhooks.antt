-- ===== src/Tests/Webhooks.antt =====
-- The webhook of the plugin on the requests of other tests.
use synapse_guardian.Prelude.{
  ℕ, ◌≡◌, ◌≤◌, ◌+◌, ◌⊎◌, ◌↔◌, false, some, List, [], ◌∷◌, ◌++◌, Text, codes, length, arith, text_eq,
  if◌then◌else◌,
}
use synapse_guardian.Prelude.Result.{Result, ok, err}
use synapse_guardian.Unicode.{ascii}
use synapse_guardian.Value.{Value, str, obj, field, end}
use synapse_guardian.Config.{set_or_none}
use synapse_guardian.Bot.Chat.{Settings}
use synapse_guardian.Bot.Webhook.{
  LoadError, value_error, Uncaught, Request, Inbox, new_inbox, notify, notify_each,
  parse_notify_request, notify_max_body,
}
use synapse_guardian.Bot.Webhook.Accepted.{IsAuthorised, parse_notify_request_iff}
use synapse_guardian.Bot.Webhook.Posting.{notify_posts}
use synapse_guardian.Bot.Webhook.Flood.{webhook_flood-le}
use synapse_guardian.Tests.Bots.{settings}

-- the body of the tests, and what it loads as
abbrev hello : Text
hello = codes "hello"

abbrev hello_body : List ℕ
hello_body = codes "hello-body"

abbrev loads : List ℕ → Result LoadError Value
loads body =
    if text_eq body hello_body
    then ok (obj (field (codes "text") (str hello) end))
    else err value_error

abbrev secret : Text
secret = codes "s3"

abbrev open_settings : Settings
open_settings = record settings { notify_secret = some secret }

abbrev request : Request
request = record {
  auth_header = some (codes "Bearer s3");
  body = hello_body;
  now = 10;
  send_raises = false;
}

parse_notify_request_iff_example :
    (parse_notify_request loads (some (codes "Bearer s3")) hello_body (some secret) notify_max_body
      ≡ ok (200, some hello))
    ↔ IsAuthorised hello loads (some (codes "Bearer s3")) hello_body (some secret) notify_max_body
parse_notify_request_iff_example =
    parse_notify_request_iff hello loads (some (codes "Bearer s3")) hello_body (some secret)
      notify_max_body

abbrev after_one : Result Uncaught ℕ × Inbox
after_one = notify loads open_settings request new_inbox

notify_posts_example :
    (after_one.1.posted ≡ [])
    ⊎ ((text : Text) × IsAuthorised text loads request.auth_header request.body
          open_settings.notify_secret notify_max_body
        × ((room : Text) × (set_or_none open_settings.control_room ≡ some room))
        × (after_one.1.posted ≡ [] ++ text ∷ [])
        × (after_one.0 ≡ ok 200))
notify_posts_example = notify_posts loads open_settings request new_inbox

webhook_flood-le_example :
    length (notify_each loads open_settings (request ∷ request ∷ []) new_inbox).posted ≤ 0 + 40
webhook_flood-le_example =
    webhook_flood-le loads open_settings 5 (request ∷ request ∷ []) new_inbox
      ((omega arith, omega arith), ((omega arith, omega arith), tt))
