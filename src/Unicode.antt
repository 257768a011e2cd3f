-- ===== src/Unicode.antt =====
-- The Unicode tables behind `str.lower`, `str.split`, `str.strip`, `int` and `re.IGNORECASE`.
-- They are data that ships with the interpreter, so they are a parameter of the development;
-- `ascii` is a concrete instance, on which the tests run.
use synapse_guardian.Prelude.{
  ℕ, ◌+◌, ◌-◌, ◌≡◌, refl, Bool, true, ◌&&◌, ◌||◌, List, [], ◌∷◌, ◌++◌, map, Option, none, some, leb,
  ◌==◌, ==_iff, if◌then◌else◌, Text,
}

pub record Unicode : Type 0 where
  -- str.lower, which may change the length of a text
  pub lower : Text → Text
  -- str.isspace of one character
  pub is_space : ℕ → Bool
  -- \w of one character
  pub is_word : ℕ → Bool
  -- the value of a decimal digit
  pub digit_value : ℕ → Option ℕ
  -- a literal character of a pattern against a character of the subject, under re.IGNORECASE
  pub same_letter : ℕ → ℕ → Bool
  -- a character matches itself, whatever its case
  pub same_letter_refl : (c : ℕ) → same_letter c c ≡ true

abbrev ascii_upper : ℕ → Bool
ascii_upper c = leb b'A' c && leb c b'Z'

abbrev ascii_lower_char : ℕ → ℕ
ascii_lower_char c = if ascii_upper c then c + 32 else c

abbrev ascii_space : ℕ → Bool
ascii_space c = (leb 9 c && leb c 13) || (leb 28 c && leb c 32)

abbrev ascii_word : ℕ → Bool
ascii_word c =
    (leb b'A' c && leb c b'Z')
    || (leb b'a' c && leb c b'z')
    || (leb b'0' c && leb c b'9')
    || c == b'_'

abbrev ascii_digit : ℕ → Option ℕ
ascii_digit c = if leb b'0' c && leb c b'9' then some (c - b'0') else none

pub ascii_letter_refl : (c : ℕ) → (ascii_lower_char c == ascii_lower_char c) ≡ true
ascii_letter_refl c = (==_iff (ascii_lower_char c) (ascii_lower_char c)).1 refl

instance abbrev pub ascii : Unicode
ascii = record {
  lower = map ascii_lower_char;
  is_space = ascii_space;
  is_word = ascii_word;
  digit_value = ascii_digit;
  same_letter = λ a b. ascii_lower_char a == ascii_lower_char b;
  same_letter_refl = ascii_letter_refl;
}

module _ ⦃u : Unicode⦄ where
  flush : Text → List Text
  flush [] = []
  flush (c ∷ w) = (c ∷ w) ∷ []

  -- `word` holds the characters of the word that is being read
  split_from : Text → Text → List Text
  split_from word [] = flush word
  split_from word (c ∷ s) =
      let ended = flush word ++ split_from [] s in
      let longer = split_from (word ++ c ∷ []) s in if u.is_space c then ended else longer

  -- s.split()
  unfoldable pub split : Text → List Text
  unfolding split_from flush
  split s = split_from [] s

  unfoldable pub lstrip : Text → Text
  lstrip [] = []
  lstrip (c ∷ s) = let rest = lstrip s in if u.is_space c then rest else c ∷ s
