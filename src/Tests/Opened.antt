-- ===== src/Tests/Opened.antt =====
-- What the tests compute with, named once.
use synapse_guardian.Prelude.{
  starts_with, has_char, after_first, text_eq, any, all, keep, find_first,
}
use synapse_guardian.Unicode.{split}
use synapse_guardian.TextSet.{text_ltb, member, insert, union, discard}
use synapse_guardian.Glob.{
  is_wildcard, count, put, split_runs, is_run, chunk_pieces, join_pieces, glob_to_regex, runs_among,
  wildcard_runs,
}
use synapse_guardian.Glob.Regex.{dot, dots, any_dots, letter, matches}
use synapse_guardian.Policy.Kinds.{
  is_user_kind, is_server_kind, is_allow_kind, is_protected_kind, kind_name, plural, rule_kinds,
  all_kinds,
}
use synapse_guardian.Policy.Patterns.{
  has_wildcard, only_wildcards, server_of, server_char, server_chars, is_one_word, is_user_id,
  probes, is_catch_all, validate_shape, validate_pattern,
}
use synapse_guardian.Policy.Rules.{
  label, merge, rule_matches, compile_rule, add_entry, build_from, build, build_strict_from,
  build_strict, is_protected, deciding, evaluate_at, evaluate,
}

unfoldable pub policy_opened : Unit {0}
unfolding starts_with has_char after_first text_eq any all keep find_first split text_ltb member
    insert union discard is_wildcard count put split_runs is_run chunk_pieces join_pieces
    glob_to_regex runs_among wildcard_runs dot dots any_dots letter matches is_user_kind
    is_server_kind is_allow_kind is_protected_kind kind_name plural rule_kinds all_kinds
    has_wildcard only_wildcards server_of server_char server_chars is_one_word is_user_id probes
    is_catch_all validate_shape validate_pattern label merge rule_matches compile_rule add_entry
    build_from build build_strict_from build_strict is_protected deciding evaluate_at evaluate
policy_opened = tt
