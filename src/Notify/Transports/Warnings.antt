-- ===== src/Notify/Transports/Warnings.antt =====
-- How often the webhook transport warns.
use synapse_guardian.Prelude.{
  ℕ, ◌+◌, ◌≡◌, refl, sym, ◌∙◌, inl, inr, Bool, true, false, ◌||◌, List, [], ◌∷◌, ◌++◌, map, Option,
  some, arith, if◌then◌else◌, Text, text_eq, text_eq_iff, length, keep, any, Bool-cases, Bool_ext,
}
use synapse_guardian.TextSet.{member, member-insert}
use synapse_guardian.Notify.Transports.{Webhook, warn_once, webhook_message, message_each, post_of}

-- how often a warning of the kind stands in a log
abbrev pub times : Text → List Text → ℕ
times key log = length (keep (λ k. text_eq k key) log)

abbrev pub failing : List (Text × Text) → List (Option Text × Text)
failing = map (λ message. (some message.0, message.1))

keep-append : (key : Text) (xs ys : List Text) → times key (xs ++ ys) ≡ times key xs + times key ys
unfolding keep
keep-append key [] ys = omega arith
keep-append key (x ∷ xs) ys = ground (arith, keep-append key xs ys)

abbrev once_if : Bool → Webhook → Text → ℕ
once_if fails w key = if fails then if member key w.warned then 0 else 1 else 0

flip : (a b : Text) → text_eq a b ≡ text_eq b a
flip a b =
    Bool_ext (text_eq a b) (text_eq b a) (λ e. (text_eq_iff b a).1 (sym ((text_eq_iff a b).0 e)))
      (λ e. (text_eq_iff a b).1 (sym ((text_eq_iff b a).0 e)))

-- a failure is logged, or has been, and what is logged later is as much less
warn_lem :
    (key raised : Text) (b : Bool) (w : Webhook)
    → let next = warn_once raised w in
      times key next.log + once_if b next key
      ≡ times key w.log + once_if (text_eq raised key || b) w key
unfolding warn_once keep
warn_lem key raised b w = elim (Bool-cases (member raised w.warned)) [
  | inl known ↦ elim (Bool-cases (text_eq raised key)) [
    | inr other ↦ rw (known, other) refl
    | inl same ↦
        let logged : member key w.warned ≡ true =
          rw (sym ((text_eq_iff raised key).0 same)) known in
        rw (known, same, logged) (ground arith)
  ]
  | inr new ↦
      let more = member-insert key raised w.warned in
      let counted = keep-append key w.log (raised ∷ []) in
      elim (Bool-cases (text_eq raised key)) [
        | inl same ↦
            let e = (text_eq_iff raised key).0 same in
            let absent : member key w.warned ≡ false = rw (sym e) new in
            rw (new, counted, more, flip key raised, same, absent) (ground arith)
        | inr other ↦ rw (new, counted, more, flip key raised, other) (ground arith)
      ]
]

module _ (url secret : Text) where
  -- Of messages that all fail, those that fail in one way are logged once, and not at all where a warning
  -- of the kind has been logged since the last message that was delivered.
  pub warnings_lem :
      (key : Text) (messages : List (Text × Text)) (w : Webhook)
      → times key (message_each url secret (failing messages) w).log
        ≡ times key w.log
          + (if any (λ message. text_eq message.0 key) messages
              then if member key w.warned then 0 else 1
              else 0)
  unfolding message_each webhook_message any
  warnings_lem key [] w = omega arith
  warnings_lem key ((raised, text) ∷ messages) w =
      let tried = record w { posts = w.posts ++ post_of url secret text ∷ [] } in
      warnings_lem key messages (warn_once raised tried)
      ∙ warn_lem key raised (any (λ message. text_eq message.0 key) messages) tried
