-- ===== src/Glob.antt =====
-- synapse_guardian/policy.py, `glob_to_regex`: a Matrix glob becomes an anchored regex in which
-- each run of wildcards is one counted repetition. `Regex` is the part of `re` that such a regex
-- uses, `Meaning` is what a glob should match, and `Runs` and
-- `Correct` prove that the two agree.
pub mod Regex
pub mod Meaning
pub mod Runs
pub mod Correct
use synapse_guardian.Prelude.{
  ℕ, zero, suc, ◌+◌, Bool, true, false, ◌||◌, List, [], ◌∷◌, ◌++◌, map, if◌then◌else◌, ◌==◌, Text,
  has_char, length,
}
use Regex.{Piece, literal, exactly, at_least, Pattern}

abbrev pub star : ℕ
star = b'*'

abbrev pub question_mark : ℕ
question_mark = b'?'

-- a character of the class [\?\*]
unfoldable pub is_wildcard : ℕ → Bool
is_wildcard c = c == star || c == question_mark

-- s.count(c)
unfoldable pub count : ℕ → Text → ℕ
count c [] = 0
count c (x ∷ s) = let rest = count c s in if x == c then suc rest else rest

-- Puts `c` in front of the first chunk, or opens a chunk for it: a run of wildcards and a run of
-- other characters are chunks of their own.
unfoldable pub put : ℕ → List Text → List Text
put c [] = (c ∷ []) ∷ []
put c ([] ∷ chunks) = (c ∷ []) ∷ chunks
put c ((x ∷ chunk) ∷ chunks) =
    if is_wildcard c
    then if is_wildcard x then (c ∷ x ∷ chunk) ∷ chunks else (c ∷ []) ∷ (x ∷ chunk) ∷ chunks
    else if is_wildcard x
    then (c ∷ []) ∷ (x ∷ chunk) ∷ chunks
    else (c ∷ x ∷ chunk) ∷ chunks

-- _WILDCARD_RUN.split(glob), without the empty texts that it puts at the ends
unfoldable pub split_runs : Text → List Text
split_runs [] = []
split_runs (c ∷ glob) = put c (split_runs glob)

-- _WILDCARD_RUN.match(chunk)
unfoldable pub is_run : Text → Bool
is_run [] = false
is_run (c ∷ chunk) = is_wildcard c

-- the body of the loop over the chunks
unfoldable pub chunk_pieces : Text → Pattern
chunk_pieces chunk =
    if is_run chunk
    then if has_char star chunk
      then at_least (count question_mark chunk) ∷ []
      else exactly (count question_mark chunk) ∷ []
    else map literal chunk

unfoldable pub join_pieces : List Text → Pattern
join_pieces [] = []
join_pieces (chunk ∷ chunks) = chunk_pieces chunk ++ join_pieces chunks

unfoldable pub glob_to_regex : Text → Pattern
unfolding join_pieces chunk_pieces split_runs put is_run is_wildcard count has_char
glob_to_regex glob = join_pieces (split_runs glob)

unfoldable pub runs_among : List Text → ℕ
runs_among [] = 0
runs_among (chunk ∷ chunks) =
    let rest = runs_among chunks in if is_run chunk then suc rest else rest

-- len(_WILDCARD_RUN_RE.findall(glob))
unfoldable pub wildcard_runs : Text → ℕ
unfolding runs_among split_runs put is_run is_wildcard
wildcard_runs glob = runs_among (split_runs glob)
