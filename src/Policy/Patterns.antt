-- ===== src/Policy/Patterns.antt =====
-- Which texts are user IDs and which patterns a rule may use.
use synapse_guardian.Prelude.{
  ℕ, Bool, true, false, not, ◌&&◌, ◌||◌, List, [], ◌∷◌, Option, none, some, leb, ltb, if◌then◌else◌,
  Text, codes, length, text_eq, starts_with, has_char, after_first, is_empty, any, all,
}
use synapse_guardian.Prelude.Result.{Result, ok, err}
use synapse_guardian.Unicode.{Unicode, split}
use synapse_guardian.Glob.{is_wildcard, glob_to_regex, wildcard_runs}
use synapse_guardian.Glob.Regex.{Pattern, matches}
use synapse_guardian.Policy.Kinds.{
  Kind, is_user_kind, is_server_kind, is_allow_kind, is_protected_kind,
}

abbrev pub max_pattern_len : ℕ
max_pattern_len = 255

abbrev pub max_subject_len : ℕ
max_subject_len = 255

abbrev pub max_wildcard_runs : ℕ
max_wildcard_runs = 4

-- The messages that `InvalidPattern` is raised with; `key_error` is the `KeyError` of a kind that
-- the table of rules does not have.
pub data Invalid : Type 0 where
  empty_pattern too_long has_whitespace too_many_wildcards catch_all : Invalid
  not_a_user_id not_a_user_pattern not_a_server_pattern unknown_kind key_error : Invalid

-- _WILDCARDS_RE.search(s)
unfoldable pub has_wildcard : Text → Bool
has_wildcard = any is_wildcard

-- not _WILDCARDS_RE.sub("", s): nothing but wildcards
unfoldable pub only_wildcards : Text → Bool
only_wildcards = all is_wildcard

-- ValueError of `server_of`
pub data NotUserId : Type 0 where
  not_user_id : NotUserId

unfoldable pub server_of : Text → Result NotUserId Text
server_of user_id =
    if not (starts_with b'@' user_id) || not (has_char b':' user_id)
    then err not_user_id
    else ok (after_first b':' user_id)

-- the class [A-Za-z0-9.\-_*?:\[\]] of _SERVER_PATTERN_RE
unfoldable pub server_char : ℕ → Bool
server_char c =
    (leb b'A' c && leb c b'Z')
    || (leb b'a' c && leb c b'z')
    || (leb b'0' c && leb c b'9')
    || has_char c (codes ".-_*?:[]")

-- `server_char` one or more times; `$` also stands before a newline that ends the text
unfoldable pub server_chars : Text → Bool
server_chars [] = false
server_chars (c ∷ []) = server_char c
server_chars (c ∷ d ∷ s) =
    let rest = server_chars (d ∷ s) in server_char c && (text_eq (d ∷ s) (10 ∷ []) || rest)

abbrev same_words : List Text → Text → Bool
same_words [] s = false
same_words (w ∷ []) s = text_eq w s
same_words (w ∷ v ∷ ws) s = false

module _ ⦃u : Unicode⦄ where
  -- s.split() == [s]
  unfoldable pub is_one_word : Text → Bool
  is_one_word s = same_words (split s) s

  unfoldable pub is_user_id : Text → Bool
  is_user_id value =
      starts_with b'@' value
      && has_char b':' value
      && leb (length value) max_pattern_len
      && is_one_word value
      && not (has_wildcard value)

  -- _CATCH_ALL_PROBES
  unfoldable pub probes : Kind → Option (Text × Text)
  probes kind =
      if is_user_kind kind
      then some (codes "@q:q.q", codes "@z:z.z")
      else if is_server_kind kind
      then some (codes "q.q", codes "z.z")
      else none

  matches_both : Pattern → Option (Text × Text) → Bool
  matches_both regex none = false
  matches_both regex (some (first, second)) = matches regex first && matches regex second

  unfoldable pub is_catch_all : Text → Kind → Bool
  unfolding matches_both probes
  is_catch_all pattern kind =
      if only_wildcards pattern then true else matches_both (glob_to_regex pattern) (probes kind)

  -- the last test of `validate_pattern`, by kind
  unfoldable pub validate_shape : Kind → Text → Result Invalid (Unit {0})
  validate_shape kind pattern =
      if is_protected_kind kind
      then if is_user_id pattern then ok tt else err not_a_user_id
      else if is_user_kind kind
      then if not (starts_with b'@' pattern) || not (has_char b':' pattern)
        then err not_a_user_pattern
        else ok tt
      else if is_server_kind kind
      then if starts_with b'@' pattern || not (server_chars pattern)
        then err not_a_server_pattern
        else ok tt
      else err unknown_kind

  unfoldable pub validate_pattern : Kind → Text → Result Invalid (Unit {0})
  unfolding validate_shape
  validate_pattern kind pattern =
      if is_empty pattern
      then err empty_pattern
      else if ltb max_pattern_len (length pattern)
      then err too_long
      else if not (is_one_word pattern)
      then err has_whitespace
      else if ltb max_wildcard_runs (wildcard_runs pattern)
      then err too_many_wildcards
      else if is_allow_kind kind && is_catch_all pattern kind
      then err catch_all
      else validate_shape kind pattern
