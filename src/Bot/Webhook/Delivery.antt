-- ===== src/Bot/Webhook/Delivery.antt =====
-- The two ends of the webhook: what the module's notifier sends is what the plugin's webhook accepts.
use synapse_guardian.Prelude.{
  ℕ, ◌≡◌, refl, inl, inr, true, false, List, [], ◌∷◌, ◌++◌, some, leb, Text, codes, text_eq,
  is_empty, length, Bool-cases,
}
use mathlib.Core.List.{reverse, reverse_aux, reverse-cons}
use synapse_guardian.Prelude.Result.{Result, ok}
use synapse_guardian.Unicode.{Unicode, lstrip}
use synapse_guardian.Value.{Value, str, field, end, get, lookup, strip}
use synapse_guardian.Notify.{format_block}
use synapse_guardian.Notify.Transports.{Notice, text_of, post_of}
use synapse_guardian.Bot.Webhook.{LoadError, parse_notify_request, notify_max_body, is_ascii}
use synapse_guardian.Bot.Webhook.Accepted.{
  IsAuthorised, CarriesSecret, CarriesNotice, HasNotice, IsNotice, parse_notify_request_iff,
}

reversed_end :
    (front : Text) (c : ℕ) (after : Text) → is_empty (reverse_aux (front ++ c ∷ []) after) ≡ false
reversed_end [] c after = refl
reversed_end (x ∷ front) c after = reversed_end front c (x ∷ after)

module _ ⦃u : Unicode⦄ where
  lstrip-end :
      (s : Text) (c : ℕ)
      → u.is_space c ≡ false
      → (front : Text) × (lstrip (s ++ c ∷ []) ≡ front ++ c ∷ [])
  unfolding lstrip
  lstrip-end [] c visible = ([], rw visible refl)
  lstrip-end (x ∷ s) c visible = elim (Bool-cases (u.is_space x)) [
    | inl space ↦ let (front, e) = lstrip-end s c visible in (front, rw space e)
    | inr other ↦ (x ∷ s, rw other refl)
  ]

  not_blank : (c : ℕ) (s : Text) → u.is_space c ≡ false → is_empty (strip (c ∷ s)) ≡ false
  unfolding strip lstrip
  not_blank c s visible =
      let (front, e) = lstrip-end (reverse s) c visible in
      rw (visible, reverse-cons c s, e) (reversed_end front c [])

  text_not_blank :
      (notice : Notice) → u.is_space b'g' ≡ false → is_empty (strip (text_of notice)) ≡ false
  unfolding format_block
  text_not_blank notice visible = not_blank b'g' _ visible

  -- A notice that the module hands to the webhook transport, with the secret that the plugin has, is
  -- accepted by the plugin with its text. The secret is in ASCII, the body of the request is what the
  -- plugin's json.loads reads back, and is not too long for it, and `g` is no white space.
  pub notice_is_accepted :
      (loads : List ℕ → Result LoadError Value) (dumps : Value → List ℕ) (url secret : Text)
      (notice : Notice)
      → u.is_space b'g' ≡ false
      → is_empty secret ≡ false
      → is_ascii secret ≡ true
      → (let post = post_of url secret (text_of notice) in
          loads (dumps post.payload) ≡ ok post.payload)
      → leb (length (dumps (post_of url secret (text_of notice)).payload)) notify_max_body ≡ true
      → let post = post_of url secret (text_of notice) in
        parse_notify_request loads
          (some post.authorization)
          (dumps post.payload)
          (some secret)
          notify_max_body
        ≡ ok (200, some (text_of notice))
  unfolding post_of IsAuthorised CarriesSecret CarriesNotice HasNotice IsNotice
  notice_is_accepted loads dumps url secret notice visible given ascii loaded short =
      let post = post_of url secret (text_of notice) in
      (parse_notify_request_iff (text_of notice) loads (some post.authorization)
          (dumps post.payload) (some secret) notify_max_body).1
        (
          secret,
          rw given refl,
          (refl, ascii),
          (
            short,
            (
              post.payload,
              loaded,
              (
                field (codes "text") (str (text_of notice)) end,
                refl,
                (unfold get lookup text_eq in refl, text_not_blank notice visible),
              ),
            ),
          ),
        )
