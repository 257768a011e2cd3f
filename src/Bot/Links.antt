-- ===== src/Bot/Links.antt =====
-- bot/guardian_bot/__init__.py: the user IDs behind the links of a message (`resolve_user_arg`). The
-- regular expressions are written as scanners of the same texts.
pub mod Users
use synapse_guardian.Prelude.{
  ℕ, zero, suc, ◌-◌, ◌≡◌, Bool, true, false, not, ◌&&◌, ◌||◌, List, [], ◌∷◌, ◌++◌, Option, none,
  some, ◌==◌, leb, if◌then◌else◌, Text, codes, length, text_eq, is_empty,
}
use synapse_guardian.Unicode.{Unicode}
use synapse_guardian.Value.{strip}
use synapse_guardian.Value.Int.{ℤ}
use synapse_guardian.Policy.Patterns.{is_user_id}

-- The parts of the standard library that the plugin calls on texts and times: html.unescape,
-- urllib.parse.unquote, and the day of a time in milliseconds, by time.gmtime and time.strftime, which
-- raise where the time is out of range (`none`).
pub record Runtime : Type 0 where
  pub date_of : ℤ → Option Text
  pub unescape : Text → Text
  pub unquote : Text → Text

-- a link of the body: its `href` and its `text`
pub record Link : Type 0 where
  pub href : Text
  pub text : Text

-- What a match leaves of the subject.
abbrev Scan : Type 0 → Type 0
Scan A = Option (A × Text)

-- [^c]+ followed by c, and the text after it
unfoldable pub until : ℕ → Text → Scan Text
until c [] = none
until c (x ∷ s) = elim (x == c) [
  | true ↦ some ([], s)
  | false ↦ elim (until c s) [ none ↦ none | some (part, rest) ↦ some (x ∷ part, rest) ]
]

abbrev not_empty : Scan Text → Scan Text
not_empty (some ([], rest)) = none
not_empty found = found

module _ ⦃u : Unicode⦄ where
  -- A literal prefix under re.IGNORECASE, and the text after it.
  unfoldable pub skip_prefix : Text → Text → Option Text
  skip_prefix [] s = some s
  skip_prefix (p ∷ prefix) [] = none
  skip_prefix (p ∷ prefix) (c ∷ s) =
      let rest = skip_prefix prefix s in if u.same_letter p c then rest else none

  -- (?P<text>.*?)</a>
  unfoldable pub until_close : Text → Scan Text
  until_close [] = none
  until_close (c ∷ s) = elim (skip_prefix (codes "</a>") (c ∷ s)) [
    | some rest ↦ some ([], rest)
    | none ↦ elim (until_close s) [ none ↦ none | some (part, rest) ↦ some (c ∷ part, rest) ]
  ]

  -- href="(?P<href>[^"]+)"[^>]*>(?P<text>.*?)</a>
  unfoldable pub link_from_href : Text → Scan Link
  link_from_href s = elim (skip_prefix (codes "href=" ++ b'"' ∷ []) s) [
    | none ↦ none
    | some quoted ↦ elim (not_empty (until b'"' quoted)) [
      | none ↦ none
      | some (href, attributes) ↦ elim (until b'>' attributes) [
        | none ↦ none
        | some (ignored, inner) ↦ elim (until_close inner) [
          | none ↦ none
          | some (text, rest) ↦ some (record { href = href; text = text }, rest)
        ]
      ]
    ]
  ]

  -- \b between a character and the next one
  abbrev is_boundary : ℕ → ℕ → Bool
  is_boundary c d = if u.is_word c then not (u.is_word d) else u.is_word d

  -- [^>]*\bhref=... after the character `before`: the last place that matches
  unfoldable pub link_attributes : ℕ → Text → Scan Link
  link_attributes before [] = none
  link_attributes before (c ∷ s) =
      let later = link_attributes c s in
      if c == b'>' then none else elim later [
        | some found ↦ some found
        | none ↦ if is_boundary before c then link_from_href (c ∷ s) else none
      ]

  abbrev ends_word : ℕ → Text → Bool
  ends_word c [] = u.is_word c
  ends_word c (d ∷ s) = is_boundary c d

  -- _LINK_RE at the start of a text
  unfoldable pub link_at : Text → Scan Link
  link_at [] = none
  link_at (c ∷ []) = none
  link_at (c ∷ d ∷ s) =
      if c == b'<' && u.same_letter b'a' d && ends_word d s then link_attributes d s else none

  -- _LINK_RE.finditer: `skip` characters belong to the link before
  unfoldable pub find_links : ℕ → Text → List Link
  find_links skip [] = []
  find_links (suc skip) (c ∷ s) = find_links skip s
  find_links zero (c ∷ s) = elim (link_at (c ∷ s)) [
    | none ↦ find_links 0 s
    | some (link, rest) ↦ link ∷ find_links (length s - length rest) s
  ]

  -- re.sub(r"<[^>]+>", "", text): `skip` characters belong to the tag before
  unfoldable pub strip_tags : ℕ → Text → Text
  strip_tags skip [] = []
  strip_tags (suc skip) (c ∷ s) = strip_tags skip s
  strip_tags zero (c ∷ s) =
      let kept = c ∷ strip_tags 0 s in
      elim (if c == b'<' then not_empty (until b'>' s) else none) [
        | none ↦ kept
        | some (tag, rest) ↦ strip_tags (length s - length rest) s
      ]

-- [^?]+
unfoldable pub before_query : Text → Text
before_query [] = []
before_query (c ∷ s) = let rest = before_query s in if c == b'?' then [] else c ∷ rest

abbrev first_of : Option Text → Option Text → Option Text
first_of (some rest) other = some rest
first_of none other = other

abbrev non_empty : Text → Option Text
non_empty [] = none
non_empty (c ∷ s) = some (c ∷ s)

-- s.lstrip("@")
unfoldable pub strip_sigils : Text → Text
strip_sigils [] = []
strip_sigils (c ∷ s) = let rest = strip_sigils s in if c == b'@' then rest else c ∷ s

module _ ⦃u : Unicode⦄ where
  -- _MATRIX_TO_RE: what `id` matches
  unfoldable pub matrix_to_id : Text → Option Text
  matrix_to_id href = elim (skip_prefix (codes "http") href) [
    | none ↦ none
    | some s ↦
        elim (first_of (skip_prefix (codes "s://matrix.to/#/") s)
          (skip_prefix (codes "://matrix.to/#/") s)) [
            | none ↦ none
            | some rest ↦ non_empty (before_query rest)
          ]
  ]

  -- _MATRIX_URI_RE: what `id` matches
  unfoldable pub matrix_uri_id : Text → Option Text
  matrix_uri_id href = elim (skip_prefix (codes "matrix:u/") href) [
    | none ↦ none
    | some rest ↦ non_empty (before_query rest)
  ]

  module _ (d : Runtime) where
    unfoldable pub candidate_of : Text → Option Text
    candidate_of href = elim (matrix_to_id href) [
      | some id ↦ some (d.unquote id)
      | none ↦ elim (matrix_uri_id href) [ none ↦ none | some id ↦ some (b'@' ∷ d.unquote id) ]
    ]

    -- `_user_id_from_href`
    unfoldable pub user_id_from_href : Text → Option Text
    user_id_from_href href = elim (candidate_of (strip (d.unescape href))) [
      | none ↦ none
      | some candidate ↦ if is_user_id candidate then some candidate else none
    ]

    abbrev link_text : Text → Text
    link_text text = strip (d.unescape (strip_tags 0 text))

    -- the user links: (anchor text, mxid)
    unfoldable pub user_links : List Link → List (Text × Text)
    user_links [] = []
    user_links (link ∷ links) =
        let rest = user_links links in
        elim (user_id_from_href link.href) [
          | none ↦ rest
          | some user_id ↦ (link_text link.text, user_id) ∷ rest
        ]

    abbrev pub is_wanted : Text → Text → Bool
    is_wanted wanted text = text_eq text wanted || text_eq (strip_sigils text) (strip_sigils wanted)

    unfoldable pub find_wanted : Text → List (Text × Text) → Option Text
    find_wanted wanted [] = none
    find_wanted wanted ((text, user_id) ∷ links) =
        let later = find_wanted wanted links in
        if is_wanted wanted text then some user_id else later

    abbrev only_or : Text → List (Text × Text) → Text
    only_or arg ((text, user_id) ∷ []) = user_id
    only_or arg _ = arg

    unfoldable pub choose_link : Text → List (Text × Text) → Text
    choose_link arg links = elim (find_wanted (strip arg) links) [
      | some user_id ↦ user_id
      | none ↦ only_or arg links
    ]

    -- `resolve_user_arg`
    unfoldable pub resolve_user_arg : Text → Option Text → Text
    resolve_user_arg arg none = arg
    resolve_user_arg arg (some body) =
        if is_user_id arg
        then arg
        else if is_empty body
        then arg
        else choose_link arg (user_links (find_links 0 body))
