-- ===== src/Notify.antt =====
-- synapse_guardian/notify.py: the text of a notice, and when one is sent. The transports post the
-- text through Synapse or over HTTP (Transports).
pub mod Safety
pub mod Throttle
pub mod Transports
use synapse_guardian.Prelude.{
  ℕ, Bool, true, false, ◌||◌, List, [], ◌∷◌, ◌++◌, map, Option, none, some, leb, ltb, ◌==◌,
  if◌then◌else◌, Text, codes, length, take, is_empty,
}

abbrev pub max_id_len : ℕ
max_id_len = 255

-- the class [\r\n\t\x00-\x1f\x7f]
unfoldable pub is_unsafe : ℕ → Bool
is_unsafe c = c == 13 || c == 10 || c == 9 || leb c 31 || c == 127

-- _UNSAFE_CHARS_RE.sub("?", value), at one character
unfoldable pub safe_char : ℕ → ℕ
unfolding is_unsafe
safe_char c = if is_unsafe c then b'?' else c

unfoldable pub sanitise : Text → Text
unfolding safe_char
sanitise value = map safe_char (
    if ltb max_id_len (length value)
    then take max_id_len value ++ codes "...(truncated)"
    else value)

-- the part of a notice about the room, if there is one
unfoldable pub where_text : Option Text → Text
unfolding sanitise
where_text none = []
where_text (some room_id) = if is_empty room_id then [] else codes " in " ++ sanitise room_id

unfoldable pub format_block : Text → Text → Text → Option Text → Text → Bool → Text
unfolding where_text sanitise
format_block kind actor target room_id rule dry_run =
    let prefix = if dry_run then codes "[dry-run] would block" else codes "blocked" in
    codes "guardian: "
    ++ (prefix
        ++ (codes " "
            ++ (sanitise kind
                ++ (codes " "
                    ++ (sanitise actor
                        ++ (codes " -> "
                            ++ (sanitise target
                                ++ (where_text room_id
                                    ++ (codes " (reason: " ++ (sanitise rule ++ codes ")"))))))))))
