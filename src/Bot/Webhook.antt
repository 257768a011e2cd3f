-- ===== src/Bot/Webhook.antt =====
-- bot/guardian_bot/__init__.py: the webhook to which the module posts its notices.
pub mod Accepted
pub mod Posting
pub mod Flood
pub mod Delivery
use synapse_guardian.Prelude.{
  ℕ, suc, ◌+◌, ◌<◌, Bool, true, false, not, ◌&&◌, List, [], ◌∷◌, ◌++◌, all, Option, none, some,
  if◌then◌else◌, ltb, leb, Text, codes, text_eq, is_empty, length, ◌==◌,
}
use synapse_guardian.Prelude.Result.{Result, ok, err}
use synapse_guardian.Unicode.{Unicode}
use synapse_guardian.Value.{Value, str, obj, get, strip}
use synapse_guardian.Config.{set_or_none}
use synapse_guardian.Bot.Chat.{Settings}

abbrev pub notify_max_per_window : ℕ
notify_max_per_window = 20

-- in seconds
abbrev pub notify_window : ℕ
notify_window = 300

abbrev pub notify_max_body : ℕ
notify_max_body = 8192

-- What json.loads(body.decode("utf-8")) raises: a ValueError (UnicodeDecodeError is one), which is
-- caught, or RecursionError, which is not.
pub data LoadError : Type 0 where
  value_error recursion_error : LoadError

-- an exception that the handler does not catch; the server answers with status 500
pub data Uncaught : Type 0 where
  type_error nested_too_deep : Uncaught

-- s[len(prefix):] if s.startswith(prefix)
unfoldable pub after_prefix : Text → Text → Option Text
after_prefix [] s = some s
after_prefix (p ∷ prefix) [] = none
after_prefix (p ∷ prefix) (c ∷ s) =
    let rest = after_prefix prefix s in if p == c then rest else none

abbrev pub is_ascii : Text → Bool
is_ascii = all (λ c. ltb c 128)

-- hmac.compare_digest of two texts
unfoldable pub compare_digest : Text → Text → Result Uncaught Bool
compare_digest token secret =
    if is_ascii token && is_ascii secret then ok (text_eq token secret) else err type_error

abbrev pub bearer_token : Option Text → Option Text
bearer_token auth_header = elim auth_header [
  | none ↦ none
  | some header ↦ after_prefix (codes "Bearer ") header
]

-- a status, and the text of an accepted notice
abbrev pub Parsed : Type 0
Parsed = Result Uncaught (ℕ × Option Text)

module _ ⦃u : Unicode⦄ where
  unfoldable pub parse_text : Value → Parsed
  parse_text (str text) = if is_empty (strip text) then ok (400, none) else ok (200, some text)
  parse_text _ = ok (400, none)

  unfoldable pub parse_payload : Value → Parsed
  parse_payload (obj payload) = parse_text (get (codes "text") payload)
  parse_payload _ = ok (400, none)

  -- json.loads of the bytes of a body
  module _ (loads : List ℕ → Result LoadError Value) where
    unfoldable pub parse_body : List ℕ → ℕ → Parsed
    parse_body body max_bytes =
        if leb (length body) max_bytes
        then elim (loads body) [
          | ok payload ↦ parse_payload payload
          | err why ↦ elim why [
            | value_error ↦ ok (400, none)
            | recursion_error ↦ err nested_too_deep
          ]
        ]
        else ok (413, none)

    unfoldable pub parse_authorised : Text → Text → List ℕ → ℕ → Parsed
    parse_authorised token secret body max_bytes = elim (compare_digest token secret) [
      | err why ↦ err why
      | ok same ↦ if same then parse_body body max_bytes else ok (401, none)
    ]

    -- `parse_notify_request`
    unfoldable pub parse_notify_request : Option Text → List ℕ → Option Text → ℕ → Parsed
    parse_notify_request auth_header body secret max_bytes = elim (set_or_none secret) [
      | none ↦ ok (503, none)
      | some key ↦ elim (bearer_token auth_header) [
        | none ↦ ok (401, none)
        | some token ↦ parse_authorised token key body max_bytes
      ]
    ]

-- A POST: its Authorization header, what is read of its body, the time, and whether the notice cannot be
-- sent to the room.
pub record Request : Type 0 where
  pub auth_header : Option Text
  pub body : List ℕ
  pub now : ℕ
  pub send_raises : Bool

-- not (status != 200 or text is None), with the text
abbrev pub accepted_text : ℕ × Option Text → Option Text
accepted_text (status, text) = if status == 200 then text else none

-- `_notify_window_started`, `_notify_sent_in_window`, and the notices posted so far
pub record Inbox : Type 0 where
  pub window_started : ℕ
  pub sent_in_window : ℕ
  pub posted : List Text

abbrev pub new_inbox : Inbox
new_inbox = record { window_started = 0; sent_in_window = 0; posted = [] }

unfoldable pub roll_window : ℕ → Inbox → Inbox
roll_window now inbox =
    if leb (inbox.window_started + notify_window) now
    then record inbox { window_started = now; sent_in_window = 0 }
    else inbox

-- `_notify_allowed`
unfoldable pub notify_allowed : ℕ → Inbox → Bool × Inbox
notify_allowed now inbox =
    let rolled = roll_window now inbox in
    if leb notify_max_per_window rolled.sent_in_window
    then (false, rolled)
    else (true, record rolled { sent_in_window = suc rolled.sent_in_window })

-- the end of `notify`: the status, and the state
unfoldable pub post_notice : Request → Text → Inbox → ℕ × Inbox
post_notice request text inbox =
    let (allowed, counted) = notify_allowed request.now inbox in
    if allowed
    then if request.send_raises
      then (502, counted)
      else (200, record counted { posted = counted.posted ++ text ∷ [] })
    else (200, counted)

module _ ⦃u : Unicode⦄ (loads : List ℕ → Result LoadError Value) (settings : Settings) where
  -- `notify`
  unfoldable pub notify : Request → Inbox → Result Uncaught ℕ × Inbox
  notify request inbox =
      elim (parse_notify_request loads request.auth_header request.body settings.notify_secret
        notify_max_body) [
          | err why ↦ (err why, inbox)
          | ok parsed ↦ elim (accepted_text parsed) [
            | none ↦ (ok parsed.0, inbox)
            | some text ↦ elim (set_or_none settings.control_room) [
              | none ↦ (ok 503, inbox)
              | some room ↦
                  let (status, inbox') = post_notice request text inbox in (ok status, inbox')
            ]
          ]
        ]

  unfoldable pub notify_each : List Request → Inbox → Inbox
  notify_each [] inbox = inbox
  notify_each (request ∷ requests) inbox = notify_each requests (notify request inbox).1
