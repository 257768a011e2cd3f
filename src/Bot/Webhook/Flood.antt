-- ===== src/Bot/Webhook/Flood.antt =====
-- The cap on what the webhook posts: a leaked secret cannot flood the room.
use synapse_guardian.Prelude.{
  ℕ, ◌+◌, ◌-◌, ◌≡◌, ◌≤◌, ◌<◌, refl, sym, subst, inl, inr, ◌⊎◌, true, false, List, [], ◌∷◌, arith,
  leb, Text, length, length-append, All, Option-cases, Bool-cases,
}
use synapse_guardian.Prelude.Result.{Result, Result-cases}
use synapse_guardian.Unicode.{Unicode}
use synapse_guardian.Value.{Value}
use synapse_guardian.Config.{set_or_none}
use synapse_guardian.Bot.Chat.{Settings}
use synapse_guardian.Bot.Webhook.{
  LoadError, Request, Inbox, notify, notify_each, notify_allowed, post_notice, roll_window,
  accepted_text, parse_notify_request, notify_window, notify_max_per_window, notify_max_body,
}

-- what has been posted, and what the window still has room for
potential : Inbox → ℕ
potential inbox = length inbox.posted + (notify_max_per_window - inbox.sent_in_window)

-- a window that is not over stays, and what is posted takes its room
post_within :
    (request : Request) (text : Text) (inbox : Inbox)
    → leb (inbox.window_started + notify_window) request.now ≡ false
    → let r = (post_notice request text inbox).1 in
      (r.window_started ≡ inbox.window_started) × (potential r ≤ potential inbox)
unfolding post_notice notify_allowed roll_window potential
post_within request text inbox within =
    elim (Bool-cases (leb notify_max_per_window inbox.sent_in_window)) [
      | inl full ↦ rw (within, full) (refl, omega arith)
      | inr room ↦ elim (Bool-cases request.send_raises) [
        | inl raises ↦ rw (within, room, raises) (refl, omega arith)
        | inr sends ↦
            rw (within, room, sends) (refl, ground (arith, length-append inbox.posted (text ∷ [])))
      ]
    ]

-- a window that is over is replaced by one that starts now
post_over :
    (request : Request) (text : Text) (inbox : Inbox)
    → leb (inbox.window_started + notify_window) request.now ≡ true
    → let r = (post_notice request text inbox).1 in
      (r.window_started ≡ request.now) × (potential r ≤ length inbox.posted + notify_max_per_window)
unfolding post_notice notify_allowed roll_window potential
post_over request text inbox over = elim (Bool-cases request.send_raises) [
  | inl raises ↦ rw (over, raises) (refl, omega arith)
  | inr sends ↦ rw (over, sends) (refl, omega (arith, length-append inbox.posted (text ∷ [])))
]

module _ ⦃u : Unicode⦄ (loads : List ℕ → Result LoadError Value) (settings : Settings) where
  -- a request that is refused changes nothing
  notify_cases :
      (request : Request) (inbox : Inbox)
      → ((notify loads settings request inbox).1 ≡ inbox)
        ⊎ ((text : Text) × ((notify loads settings request inbox).1
              ≡ (post_notice request text inbox).1))
  unfolding notify
  notify_cases request inbox =
      let parsed =
        parse_notify_request loads request.auth_header request.body settings.notify_secret
          notify_max_body in
      elim (Result-cases parsed) [
        | inr (why, raises) ↦ inl (rw (raises, notify) refl)
        | inl (answer, returned) ↦ elim (Option-cases (accepted_text answer)) [
          | inl refused ↦ inl (rw (returned, refused, notify) refl)
          | inr (text, accepted) ↦ elim (Option-cases (set_or_none settings.control_room)) [
            | inl unset ↦ inl (rw (returned, accepted, unset, notify) refl)
            | inr (room, is_set) ↦ inr (text, rw (returned, accepted, is_set, notify) refl)
          ]
        ]
      ]

  abbrev AllUntil : ℕ → List Request → Type 0
  AllUntil end = All (λ request. request.now < end)

  posted_le : (inbox : Inbox) → length inbox.posted ≤ potential inbox
  unfolding potential
  posted_le inbox = omega arith

  step_le :
      (request : Request) (requests : List Request) (inbox next : Inbox) (bound : ℕ)
      → (notify loads settings request inbox).1 ≡ next
      → length (notify_each loads settings requests next).posted ≤ bound
      → length (notify_each loads settings (request ∷ requests) inbox).posted ≤ bound
  unfolding notify_each
  step_le request requests inbox next bound same h =
      subst (λ s. length (notify_each loads settings requests s).posted ≤ bound) (sym same) h

  -- as long as the window lasts, no more is posted than it has room for
  within_le :
      (requests : List Request) (inbox : Inbox)
      → AllUntil (inbox.window_started + notify_window) requests
      → length (notify_each loads settings requests inbox).posted ≤ potential inbox
  unfolding notify_each
  within_le [] inbox before = posted_le inbox
  within_le (request ∷ requests) inbox (here, rest) = elim (notify_cases request inbox) [
    | inl same ↦ step_le request requests inbox inbox _ same (within_le requests inbox rest)
    | inr (text, posted) ↦
        let (started, smaller) = post_within request text inbox (ground arith) in
        let next = (post_notice request text inbox).1 in
        let ih =
          within_le requests next
            (subst (λ s. AllUntil (s + notify_window) requests) (sym started) rest) in
        step_le request requests inbox next _ posted (omega (arith, ih, smaller))
  ]

  IsIn : ℕ → Request → Type 0
  IsIn from request = (from ≤ request.now) × (request.now < from + notify_window)

  still_before :
      (from now : ℕ) (requests : List Request)
      → from ≤ now
      → All (IsIn from) requests
      → AllUntil (now + notify_window) requests
  unfolding IsIn
  still_before from now [] later h = tt
  still_before from now (request ∷ requests) later ((after, before), rest) =
      (omega arith, still_before from now requests later rest)

  spanned_le :
      (from : ℕ) (requests : List Request) (inbox : Inbox)
      → All (IsIn from) requests
      → length (notify_each loads settings requests inbox).posted
        ≤ potential inbox + notify_max_per_window
  unfolding notify_each IsIn
  spanned_le from [] inbox h = omega (arith, posted_le inbox)
  spanned_le from (request ∷ requests) inbox ((after, before), rest) =
      elim (notify_cases request inbox) [
        | inl same ↦
            step_le request requests inbox inbox _ same (spanned_le from requests inbox rest)
        | inr (text, posted) ↦
            let next = (post_notice request text inbox).1 in
            elim (Bool-cases (leb (inbox.window_started + notify_window) request.now)) [
              | inr within ↦
                  let (started, smaller) = post_within request text inbox within in
                  step_le request requests inbox next _ posted
                    (omega (arith, spanned_le from requests next rest, smaller))
              | inl over ↦
                  let (started, smaller) = post_over request text inbox over in
                  let ih = within_le requests next (
                    subst (λ s. AllUntil (s + notify_window) requests) (sym started)
                      (still_before from request.now requests after rest)) in
                  step_le request requests inbox next _ posted
                    (omega (arith, ih, smaller, posted_le inbox))
            ]
      ]

  -- However many requests there are, those of a span of 300 seconds post at most 40 notices, in whatever
  -- state the webhook is.
  pub webhook_flood-le :
      (from : ℕ) (requests : List Request) (inbox : Inbox)
      → All (λ request. (from ≤ request.now) × (request.now < from + notify_window)) requests
      → length (notify_each loads settings requests inbox).posted ≤ length inbox.posted + 40
  unfolding potential IsIn
  webhook_flood-le from requests inbox h = omega (arith, spanned_le from requests inbox h)
