-- ===== src/Bot/Webhook/Posting.antt =====
-- What a request to the webhook posts.
use synapse_guardian.Prelude.{
  ℕ, ◌+◌, ◌≡◌, refl, ap, ap₂, ◌∙◌, inl, inr, ◌⊎◌, List, [], ◌∷◌, ◌++◌, Option, some, leb, Text,
  ◌==◌, ==_iff, Option-cases, Bool-cases,
}
use synapse_guardian.Prelude.Result.{Result, ok, Result-cases}
use synapse_guardian.Unicode.{Unicode}
use synapse_guardian.Value.{Value}
use synapse_guardian.Config.{set_or_none}
use synapse_guardian.Bot.Chat.{Settings}
use synapse_guardian.Bot.Webhook.{
  LoadError, roll_window, notify_window, notify_max_per_window, notify_max_body,
  parse_notify_request, Request, Inbox, notify, notify_allowed, post_notice, accepted_text,
}
use synapse_guardian.Bot.Webhook.Accepted.{IsAuthorised, parse_notify_request_iff}

same_posts : (now : ℕ) (inbox : Inbox) → (notify_allowed now inbox).1.posted ≡ inbox.posted
unfolding notify_allowed roll_window
same_posts now inbox = elim (Bool-cases (leb (inbox.window_started + notify_window) now)) [
  | inl over ↦ rw over refl
  | inr within ↦ rw within (elim (Bool-cases (leb notify_max_per_window inbox.sent_in_window)) [
    | inl full ↦ rw full refl
    | inr room ↦ rw room refl
  ])
]

-- What is posted is the text, and then the status is 200.
posts_lem :
    (request : Request) (text : Text) (inbox : Inbox)
    → let r = post_notice request text inbox in
      (r.1.posted ≡ inbox.posted) ⊎ ((r.1.posted ≡ inbox.posted ++ text ∷ []) × (r.0 ≡ 200))
unfolding post_notice
posts_lem request text inbox =
    let same = same_posts request.now inbox in
    elim (Bool-cases (notify_allowed request.now inbox).0) [
      | inr full ↦ inl (rw (full, post_notice) same)
      | inl allowed ↦ elim (Bool-cases request.send_raises) [
        | inl raises ↦ inl (rw (allowed, raises, post_notice) same)
        | inr sends ↦
            inr (rw (allowed, sends, post_notice) (ap (λ posted. posted ++ text ∷ []) same, refl))
      ]
    ]

accepted_lem :
    (answer : ℕ × Option Text) (text : Text)
    → accepted_text answer ≡ some text
    → answer ≡ (200, some text)
accepted_lem (status, given) text h = elim (Bool-cases (status == 200)) [
  | inl fine ↦ ap₂ (λ a b. (a, b)) ((==_iff status 200).0 fine) (rw fine at h)
  | inr other ↦ absurd (cc (rw other at h))
]

module _ ⦃u : Unicode⦄ (loads : List ℕ → Result LoadError Value) (settings : Settings) where
  -- A request posts nothing, or it posts the text with which it is accepted, in a control room that is
  -- set, and is answered with status 200.
  pub notify_posts :
      (request : Request) (inbox : Inbox)
      → let r = notify loads settings request inbox in
        (r.1.posted ≡ inbox.posted)
        ⊎ ((text : Text) × IsAuthorised text loads request.auth_header request.body
              settings.notify_secret notify_max_body
            × ((room : Text) × (set_or_none settings.control_room ≡ some room))
            × (r.1.posted ≡ inbox.posted ++ text ∷ [])
            × (r.0 ≡ ok 200))
  unfolding notify
  notify_posts request inbox =
      let parsed =
        parse_notify_request loads request.auth_header request.body settings.notify_secret
          notify_max_body in
      elim (Result-cases parsed) [
        | inr (why, raises) ↦ inl (rw (raises, notify) refl)
        | inl (answer, returned) ↦ elim (Option-cases (accepted_text answer)) [
          | inl refused ↦ inl (rw (returned, refused, notify) refl)
          | inr (text, accepted) ↦
              let authorised =
                (parse_notify_request_iff text loads request.auth_header request.body
                    settings.notify_secret notify_max_body).0
                  (returned ∙ ap ok (accepted_lem answer text accepted)) in
              elim (Option-cases (set_or_none settings.control_room)) [
                | inl unset ↦ inl (rw (returned, accepted, unset, notify) refl)
                | inr (room, is_set) ↦ elim (posts_lem request text inbox) [
                  | inl same ↦ inl (rw (returned, accepted, is_set, notify) same)
                  | inr (posted, status) ↦ inr (
                    text,
                    authorised,
                    (room, is_set),
                    rw (returned, accepted, is_set, notify) posted,
                    rw (returned, accepted, is_set, notify) (ap ok status),
                  )
                ]
              ]
        ]
      ]
