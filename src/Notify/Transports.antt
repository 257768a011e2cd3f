-- ===== src/Notify/Transports.antt =====
-- synapse_guardian/notify.py: `notify`, and its transports. What the call of the transport meets is an
-- argument: whether it raises, or the name of the exception's type.
pub mod Warnings
use synapse_guardian.Prelude.{
  ℕ, Bool, true, false, List, [], ◌∷◌, ◌++◌, Option, none, some, if◌then◌else◌, Text, codes,
}
use synapse_guardian.Value.{Value, str, obj, Fields, end, field}
use synapse_guardian.TextSet.{TextSet, member, insert}
use synapse_guardian.Notify.{format_block}
use synapse_guardian.Notify.Throttle.{Key, Throttle, should_send}

-- the arguments of `notify`
pub record Notice : Type 0 where
  pub kind : Text
  pub actor : Text
  pub target : Text
  pub room_id : Option Text
  pub rule : Text
  pub dry_run : Bool

abbrev pub key_of : Notice → Key
key_of notice = record { kind = notice.kind; actor = notice.actor; target = notice.target }

abbrev pub text_of : Notice → Text
text_of notice =
    format_block notice.kind notice.actor notice.target notice.room_id notice.rule notice.dry_run

-- `notify`: what `message` makes of the transport `w`, if the notice is sent
unfoldable pub notify : {W : Type 0} → (Text → W → W) → ℕ → ℕ → Notice → Throttle × W → Throttle × W
notify message dedupe now notice (s, w) =
    let (sends, s') = should_send dedupe now (key_of notice) s in
    (s', if sends then message (text_of notice) w else w)

-- the event of `RoomNotifier.message`
unfoldable pub notice_event : Text → Text → Text → Value
notice_event room_id sender text = obj (
    field (codes "type") (str (codes "m.room.message")) (
      field (codes "room_id") (str room_id) (
        field (codes "sender") (str sender) (
          field (codes "content")
            (obj (
              field (codes "msgtype") (str (codes "m.notice"))
                (field (codes "body") (str text) end)))
            end))))

-- `RoomNotifier.message`: the events in the room; what the call raises is logged
unfoldable pub room_message : Text → Text → Bool → Text → List Value → List Value
room_message room_id sender raises text events =
    if raises then events else events ++ notice_event room_id sender text ∷ []

-- A request of the webhook transport: the URL, the JSON, and the Authorization header.
pub record Post : Type 0 where
  pub url : Text
  pub payload : Value
  pub authorization : Text

-- `_warned`, the warnings that were logged, and the requests that were made
pub record Webhook : Type 0 where
  pub warned : TextSet
  pub log : List Text
  pub posts : List Post

abbrev pub new_webhook : Webhook
new_webhook = record { warned = []; log = []; posts = [] }

-- `_warn_once`
unfoldable pub warn_once : Text → Webhook → Webhook
warn_once key w =
    if member key w.warned
    then w
    else record w { warned = insert key w.warned; log = w.log ++ key ∷ [] }

unfoldable pub post_of : Text → Text → Text → Post
post_of url secret text = record {
  url = url;
  payload = obj (field (codes "text") (str text) end);
  authorization = codes "Bearer " ++ secret;
}

-- `WebhookNotifier.message`
unfoldable pub webhook_message : Text → Text → Option Text → Text → Webhook → Webhook
webhook_message url secret raised text w =
    let tried = record w { posts = w.posts ++ post_of url secret text ∷ [] } in
    elim raised [ none ↦ record tried { warned = [] } | some key ↦ warn_once key tried ]

-- texts that are sent one after another, each with what its request meets
unfoldable pub message_each : Text → Text → List (Option Text × Text) → Webhook → Webhook
message_each url secret [] w = w
message_each url secret ((raised, text) ∷ messages) w =
    message_each url secret messages (webhook_message url secret raised text w)
