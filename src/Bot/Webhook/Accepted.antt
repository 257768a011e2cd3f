-- ===== src/Bot/Webhook/Accepted.antt =====
-- Which requests to the webhook are accepted, and what is posted.
use synapse_guardian.Prelude.{
  ℕ, ◌≡◌, refl, sym, ap, ap₂, subst, ◌∙◌, inl, inr, ◌↔◌, true, false, ◌&&◌, List, [], ◌∷◌, ◌++◌,
  Option, none, some, leb, Text, codes, text_eq, text_eq_iff, text_eq_refl, is_empty, length, ◌==◌,
  ==_iff, &&_parts, false≢true, Option-cases, Bool-cases,
}
use synapse_guardian.Prelude.Result.{Result, ok, err, Result-cases}
use synapse_guardian.Unicode.{Unicode}
use synapse_guardian.Value.{Value, Fields, str, obj, get, strip}
use synapse_guardian.Config.{set_or_none}
use synapse_guardian.Bot.Webhook.{
  LoadError, value_error, recursion_error, type_error, Parsed, after_prefix, is_ascii,
  compare_digest, parse_text, parse_payload, parse_body, parse_authorised, bearer_token,
  parse_notify_request,
}

prefix_lem : (prefix s rest : Text) → (after_prefix prefix s ≡ some rest) ↔ (s ≡ prefix ++ rest)
unfolding after_prefix
prefix_lem [] s rest = (λ h. cc, λ h. cc)
prefix_lem (p ∷ prefix) [] rest = (λ h. absurd (cc), λ h. absurd (cc))
prefix_lem (p ∷ prefix) (c ∷ s) rest =
    let (to, from) = prefix_lem prefix s rest in
    elim (Bool-cases (p == c)) [
      | inl same ↦
          let e = (==_iff p c).0 same in rw same (λ h. ap₂ ◌∷◌ (sym e) (to h), λ h. from (cc))
      | inr apart ↦ rw apart (
        λ h. absurd (cc),
        λ h. let q : p ≡ c = cc in absurd (false≢true (sym apart ∙ (==_iff p c).1 q)),
      )
    ]

foreign_digest :
    (token key : Text) → is_ascii token ≡ false → compare_digest token key ≡ err type_error
unfolding compare_digest
foreign_digest token key foreign = rw foreign refl

header_lem :
    (auth_header : Option Text) (token key : Text)
    → bearer_token auth_header ≡ some token
    → token ≡ key
    → auth_header ≡ some (codes "Bearer " ++ key)
header_lem none token key h same = absurd (cc)
header_lem (some header) token key h same = ap some (
    subst (λ t. header ≡ codes "Bearer " ++ t) same
      ((prefix_lem (codes "Bearer ") header token).0 h))

own_digest : (key : Text) → is_ascii key ≡ true → compare_digest key key ≡ ok true
unfolding compare_digest
own_digest key ascii = rw (ascii, text_eq_refl key) refl

module _ ⦃u : Unicode⦄ (text : Text) where
  abbrev Accepts : Parsed → Type 0
  Accepts parsed = parsed ≡ ok (200, some text)

  -- a value that is the text, which is not blank
  unfoldable pub IsNotice : Value → Type 0
  IsNotice v = (v ≡ str text) × (is_empty (strip text) ≡ false)

  text_lem : (v : Value) → Accepts (parse_text v) ↔ IsNotice v
  unfolding parse_text IsNotice
  text_lem (str s) = (
    λ h. elim (Bool-cases (is_empty (strip s))) [
      | inl blank ↦ absurd (cc (rw blank at h))
      | inr given ↦
          let shown : ◌≡◌ {A = Parsed} (ok (200, some s)) (ok (200, some text)) = rw given at h in
          let same : s ≡ text = cc in
          (ap str same, subst (λ t. is_empty (strip t) ≡ false) same given)
    ],
    λ (same, given). let e : s ≡ text = cc in rw (e, given) refl,
  )
  text_lem _ = (λ h. absurd (cc), λ (same, given). absurd (cc))

  -- a mapping with such a text
  unfoldable pub HasNotice : Value → Type 0
  HasNotice v = (payload : Fields) × (v ≡ obj payload) × IsNotice (get (codes "text") payload)

  payload_lem : (v : Value) → Accepts (parse_payload v) ↔ HasNotice v
  unfolding parse_payload HasNotice
  payload_lem (obj payload) =
      let (to, from) = text_lem (get (codes "text") payload) in
      (
        λ h. (payload, refl, to h),
        λ (payload', same, notice).
            let e : payload ≡ payload' = cc in
            from (subst (λ m. IsNotice (get (codes "text") m)) (sym e) notice),
      )
  payload_lem _ = (λ h. absurd (cc), λ (payload, same, notice). absurd (cc))

  module _ (loads : List ℕ → Result LoadError Value) where
    -- a body of at most so many bytes that holds such a mapping
    unfoldable pub CarriesNotice : List ℕ → ℕ → Type 0
    CarriesNotice body max_bytes =
        (leb (length body) max_bytes ≡ true)
        × ((payload : Value) × (loads body ≡ ok payload) × HasNotice payload)

    -- a body that does not load is no notice
    unloaded :
        {A : Type 0} (why : LoadError) (body : List ℕ) (max_bytes : ℕ)
        → leb (length body) max_bytes ≡ true
        → loads body ≡ err why
        → Accepts (parse_body loads body max_bytes)
        → A
    unfolding parse_body
    unloaded value_error body max_bytes short failed h =
        absurd (cc (rw (short, failed, parse_body) at h))
    unloaded recursion_error body max_bytes short failed h =
        absurd (cc (rw (short, failed, parse_body) at h))

    body_lem :
        (body : List ℕ) (max_bytes : ℕ)
        → Accepts (parse_body loads body max_bytes) ↔ CarriesNotice body max_bytes
    unfolding parse_body CarriesNotice
    body_lem body max_bytes = (
      λ h. elim (Bool-cases (leb (length body) max_bytes)) [
        | inr long ↦ absurd (cc (rw (long, parse_body) at h))
        | inl short ↦ elim (Result-cases (loads body)) [
          | inl (payload, loaded) ↦ (
            short,
            (payload, loaded, (payload_lem payload).0 (rw (short, loaded, parse_body) at h)),
          )
          | inr (why, failed) ↦ unloaded why body max_bytes short failed h
        ]
      ],
      λ (short, (payload, loaded, notice)).
          rw (short, loaded, parse_body) ((payload_lem payload).1 notice),
    )

    -- the header carries the secret, which compare_digest can compare
    unfoldable pub CarriesSecret : Option Text → Text → Type 0
    CarriesSecret auth_header key =
        (auth_header ≡ some (codes "Bearer " ++ key)) × (is_ascii key ≡ true)

    authorised_lem :
        (token key : Text) (body : List ℕ) (max_bytes : ℕ)
        → Accepts (parse_authorised loads token key body max_bytes)
          ↔ ((token ≡ key) × (is_ascii key ≡ true) × CarriesNotice body max_bytes)
    unfolding parse_authorised compare_digest
    authorised_lem token key body max_bytes = (
      λ h. elim (Bool-cases (is_ascii token && is_ascii key)) [
        | inr foreign ↦ absurd (cc (rw (foreign, parse_authorised) at h))
        | inl ascii ↦ elim (Bool-cases (text_eq token key)) [
          | inr apart ↦ absurd (cc (rw (ascii, apart, parse_authorised) at h))
          | inl same ↦ (
            (text_eq_iff token key).0 same,
            (&&_parts (is_ascii token) (is_ascii key) ascii).1,
            (body_lem body max_bytes).0 (rw (ascii, same, parse_authorised) at h),
          )
        ]
      ],
      λ (same, ascii, notice).
          rw (same, own_digest key ascii, parse_authorised) ((body_lem body max_bytes).1 notice),
    )

    -- What an accepted request is.
    unfoldable pub IsAuthorised : Option Text → List ℕ → Option Text → ℕ → Type 0
    IsAuthorised auth_header body secret max_bytes =
        (key : Text) × (set_or_none secret ≡ some key)
        × CarriesSecret auth_header key
        × CarriesNotice body max_bytes

    -- A request is accepted, with a text, exactly when a secret is set that is in ASCII, the header is
    -- `Bearer ` and that secret, the body is not too long, and it loads as a mapping whose `text` is this
    -- text and not blank.
    pub parse_notify_request_iff :
        (auth_header : Option Text) (body : List ℕ) (secret : Option Text) (max_bytes : ℕ)
        → (parse_notify_request loads auth_header body secret max_bytes ≡ ok (200, some text))
          ↔ IsAuthorised auth_header body secret max_bytes
    unfolding parse_notify_request IsAuthorised CarriesSecret
    parse_notify_request_iff auth_header body secret max_bytes = (
      λ h. elim (Option-cases (set_or_none secret)) [
        | inl unset ↦ absurd (cc (rw (unset, parse_notify_request) at h))
        | inr (key, is_set) ↦ elim (Option-cases (bearer_token auth_header)) [
          | inl bare ↦ absurd (cc (rw (is_set, bare, parse_notify_request) at h))
          | inr (token, bearer) ↦
              let (same, ascii, notice) =
                (authorised_lem token key body max_bytes).0
                  (rw (is_set, bearer, parse_notify_request) at h) in
              (key, is_set, (header_lem auth_header token key bearer same, ascii), notice)
        ]
      ],
      λ (key, is_set, (header, ascii), notice).
          rw
            (
              is_set,
              header,
              (prefix_lem (codes "Bearer ") (codes "Bearer " ++ key) key).1 refl,
              parse_notify_request,
            )
            ((authorised_lem key key body max_bytes).1 (refl, ascii, notice)),
    )

module _ ⦃u : Unicode⦄ where
  -- Before it looks at the body, the handler raises TypeError where a secret is set and the header has a
  -- bearer token that is not in ASCII: the request is neither accepted nor refused with 401.
  pub foreign_token_raises :
      (loads : List ℕ → Result LoadError Value) (token key : Text) (body : List ℕ) (max_bytes : ℕ)
      (secret : Option Text)
      → set_or_none secret ≡ some key
      → is_ascii token ≡ false
      → parse_notify_request loads (some (codes "Bearer " ++ token)) body secret max_bytes
        ≡ err type_error
  unfolding parse_notify_request parse_authorised
  foreign_token_raises loads token key body max_bytes secret is_set foreign =
      rw
        (
          is_set,
          (prefix_lem (codes "Bearer ") (codes "Bearer " ++ token) token).1 refl,
          parse_notify_request,
          foreign_digest token key foreign,
          parse_authorised,
        )
        refl
