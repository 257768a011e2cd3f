-- ===== src/Bot/Links/Users.antt =====
-- What `resolve_user_arg` returns.
use synapse_guardian.Prelude.{
  some-injective, ◌≡◌, refl, inl, inr, true, false, List, [], ◌∷◌, Option, none, some, Text,
  text_eq, text_eq_iff, text_eq_refl, ap, ◌++◌, ℕ, Option-cases, Bool-cases, sym, All, subst, ◌==◌,
  arith,
}
use synapse_guardian.Unicode.{Unicode}
use synapse_guardian.Value.{strip}
use synapse_guardian.Policy.Patterns.{is_user_id}
use synapse_guardian.Bot.Links.{
  Runtime, Link, resolve_user_arg, find_links, user_links, user_id_from_href, candidate_of,
  find_wanted, is_wanted, choose_link, strip_sigils,
}

-- The texts are equal but for the `@`s at their starts.
pub data SameName : Text → Text → Type 0 where
  same : (s : Text) → SameName s s
  first_sigil : (s t : Text) → SameName s t → SameName (b'@' ∷ s) t
  second_sigil : (s t : Text) → SameName s t → SameName s (b'@' ∷ t)

is_sigil : (c : ℕ) → (c == b'@') ≡ true → c ≡ b'@'
is_sigil c h = grind arith

SameName-strip : (s : Text) → SameName s (strip_sigils s)
unfolding strip_sigils
SameName-strip [] = same []
SameName-strip (c ∷ s) = elim (Bool-cases (c == b'@')) [
  | inl sigil ↦ rw (sigil, is_sigil c sigil) (first_sigil s _ (SameName-strip s))
  | inr letter ↦ rw letter (same (c ∷ s))
]

strip-SameName : {s t : Text} → SameName s t → strip_sigils s ≡ strip_sigils t
unfolding strip_sigils
strip-SameName (same s) = refl
strip-SameName (first_sigil s t h) = strip-SameName h
strip-SameName (second_sigil s t h) = strip-SameName h

SameName-trans_strip : (s t : Text) → SameName s (strip_sigils t) → SameName s t
unfolding strip_sigils
SameName-trans_strip s [] h = h
SameName-trans_strip s (c ∷ t) h = elim (Bool-cases (c == b'@')) [
  | inl sigil ↦ rw (is_sigil c sigil) (second_sigil s t (SameName-trans_strip s t (rw sigil at h)))
  | inr letter ↦ rw letter at h
]

module _ ⦃u : Unicode⦄ (d : Runtime) where
  IsWanted-iff :
      (wanted text : Text)
      → (is_wanted d wanted text ≡ true → SameName text wanted)
        × (is_wanted d wanted text ≡ false → ¬ SameName text wanted)
  IsWanted-iff wanted text = (
    λ wants. elim (Bool-cases (text_eq text wanted)) [
      | inl exact ↦ subst (SameName text) ((text_eq_iff text wanted).0 exact) (same text)
      | inr differ ↦ SameName-trans_strip text wanted (
          subst (SameName text)
            ((text_eq_iff (strip_sigils text) (strip_sigils wanted)).0 (rw differ at wants))
            (SameName-strip text))
    ],
    λ not_wanted alike.
        let names = text_eq_refl (strip_sigils wanted) in
        let equal : text_eq (strip_sigils text) (strip_sigils wanted) ≡ true =
          rw (strip-SameName alike) names in
        absurd (ground arith),
  )

  abbrev Unnamed : Text → Text × Text → Type 0
  Unnamed wanted link = ¬ SameName link.0 wanted

  -- What an argument stands for, beside the user links of the message (their texts and user IDs): a user
  -- ID for itself; else the user of the first link whose text is the argument, or of the only link; else,
  -- where there is no link or several, the argument itself.
  pub data Resolves (arg : Text) : List (Text × Text) → Text → Type 0 where
    explicit : (links : List (Text × Text)) → is_user_id arg ≡ true → Resolves arg links arg
    no_link : is_user_id arg ≡ false → Resolves arg [] arg
    named :
        (before after : List (Text × Text)) (text user_id : Text)
        → is_user_id arg ≡ false
        → is_user_id user_id ≡ true
        → All (λ link. ¬ SameName link.0 (strip arg)) before
        → SameName text (strip arg)
        → Resolves arg (before ++ (text, user_id) ∷ after) user_id
    only_link :
        (text user_id : Text)
        → is_user_id arg ≡ false
        → is_user_id user_id ≡ true
        → ¬ SameName text (strip arg)
        → Resolves arg ((text, user_id) ∷ []) user_id
    ambiguous :
        (first second : Text × Text) (rest : List (Text × Text))
        → is_user_id arg ≡ false
        → All (λ link. ¬ SameName link.0 (strip arg)) (first ∷ second ∷ rest)
        → Resolves arg (first ∷ second ∷ rest) arg

  href-IsUser :
      (href user_id : Text) → user_id_from_href d href ≡ some user_id → is_user_id user_id ≡ true
  unfolding user_id_from_href
  href-IsUser href user_id h = elim (Option-cases (candidate_of d (strip (d.unescape href)))) [
    | inl nothing ↦ absurd (cc (rw (nothing, user_id_from_href) at h))
    | inr (candidate, there) ↦ elim (Bool-cases (is_user_id candidate)) [
      | inl valid ↦
          let same = some-injective (rw (there, valid, user_id_from_href) at h) in
          rw (sym same) valid
      | inr invalid ↦ absurd (cc (rw (there, invalid, user_id_from_href) at h))
    ]
  ]

  links-IsUser : (links : List Link) → All (λ link. is_user_id link.1 ≡ true) (user_links d links)
  unfolding user_links
  links-IsUser [] = tt
  links-IsUser (link ∷ links) = elim (Option-cases (user_id_from_href d link.href)) [
    | inl nothing ↦ rw (nothing, user_links) (links-IsUser links)
    | inr (user_id, there) ↦
        rw (there, user_links) (href-IsUser link.href user_id there, links-IsUser links)
  ]

  found_lem :
      (wanted user_id : Text) (links : List (Text × Text))
      → All (λ link. is_user_id link.1 ≡ true) links
      → find_wanted d wanted links ≡ some user_id
      → (before : List (Text × Text)) × (after : List (Text × Text)) × (text : Text) × (links
          ≡ before ++ (text, user_id) ∷ after)
        × (is_user_id user_id ≡ true)
        × All (Unnamed wanted) before
        × SameName text wanted
  unfolding find_wanted
  found_lem wanted user_id [] valid h = absurd (cc)
  found_lem wanted user_id ((text, id) ∷ links) (here, rest) h =
      elim (Bool-cases (is_wanted d wanted text)) [
        | inl wants ↦
            let same_id = some-injective (rw wants at h) in
            (
              [],
              links,
              text,
              rw same_id refl,
              rw (sym same_id) here,
              tt,
              (IsWanted-iff wanted text).0 wants,
            )
        | inr differs ↦
            let (before, after, text', split, valid, none_before, alike) =
              found_lem wanted user_id links rest (rw differs at h) in
            (
              (text, id) ∷ before,
              after,
              text',
              ap (λ ls. (text, id) ∷ ls) split,
              valid,
              ((IsWanted-iff wanted text).1 differs, none_before),
              alike,
            )
      ]

  not_found_lem :
      (wanted : Text) (links : List (Text × Text))
      → find_wanted d wanted links ≡ none
      → All (Unnamed wanted) links
  unfolding find_wanted
  not_found_lem wanted [] h = tt
  not_found_lem wanted ((text, id) ∷ links) h = elim (Bool-cases (is_wanted d wanted text)) [
    | inl wants ↦ absurd (cc (rw wants at h))
    | inr differs ↦
        ((IsWanted-iff wanted text).1 differs, not_found_lem wanted links (rw differs at h))
  ]

  unfound_lem :
      (arg : Text) (links : List (Text × Text))
      → is_user_id arg ≡ false
      → All (λ link. is_user_id link.1 ≡ true) links
      → find_wanted d (strip arg) links ≡ none
      → Resolves arg links (choose_link d arg links)
  unfolding choose_link
  unfound_lem arg [] unclear valid nothing = rw (nothing, choose_link) (no_link unclear)
  unfound_lem arg ((text, id) ∷ []) unclear (here, rest) nothing =
      rw (nothing, choose_link)
        (only_link text id unclear here (not_found_lem (strip arg) ((text, id) ∷ []) nothing).0)
  unfound_lem arg (first ∷ second ∷ links) unclear valid nothing =
      rw (nothing, choose_link)
        (ambiguous first second links unclear
          (not_found_lem (strip arg) (first ∷ second ∷ links) nothing))

  chosen_lem :
      (arg : Text) (links : List (Text × Text))
      → is_user_id arg ≡ false
      → All (λ link. is_user_id link.1 ≡ true) links
      → Resolves arg links (choose_link d arg links)
  unfolding choose_link
  chosen_lem arg links unclear valid = elim (Option-cases (find_wanted d (strip arg) links)) [
    | inl nothing ↦ unfound_lem arg links unclear valid nothing
    | inr (user_id, found) ↦
        let (before, after, text, split, is_user, unnamed, alike) =
          found_lem (strip arg) user_id links valid found in
        rw (found, choose_link)
          (subst (λ ls. Resolves arg ls user_id) (sym split)
            (named before after text user_id unclear is_user unnamed alike))
  ]

  -- the user links of a message, in the order of its text
  abbrev pub links_of : Option Text → List (Text × Text)
  links_of none = []
  links_of (some html) = user_links d (find_links 0 html)

  -- A user ID stands for itself. Any other argument stands for the user of the first user link of the
  -- message whose text is the argument, up to white space around it and leading `@`s; if no link has this
  -- text, for the user of the only link; and if there is none or more than one, it is left as it is. What
  -- a link stands for is a user ID.
  pub resolve_user_arg_lem :
      (arg : Text) (body : Option Text) → Resolves arg (links_of body) (resolve_user_arg d arg body)
  unfolding resolve_user_arg find_links user_links
  resolve_user_arg_lem arg none = elim (Bool-cases (is_user_id arg)) [
    | inl is_user ↦ explicit [] is_user
    | inr unclear ↦ no_link unclear
  ]
  resolve_user_arg_lem arg (some []) = elim (Bool-cases (is_user_id arg)) [
    | inl is_user ↦ rw is_user (explicit [] is_user)
    | inr unclear ↦ rw unclear (no_link unclear)
  ]
  resolve_user_arg_lem arg (some (c ∷ html)) =
      let found = find_links 0 (c ∷ html) in
      elim (Bool-cases (is_user_id arg)) [
        | inl is_user ↦ rw is_user (explicit (user_links d found) is_user)
        | inr unclear ↦
            rw unclear (chosen_lem arg (user_links d found) unclear (links-IsUser found))
      ]
