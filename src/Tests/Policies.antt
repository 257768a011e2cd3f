-- ===== src/Tests/Policies.antt =====
-- policy.py on concrete rules and users.
use synapse_guardian.Prelude.{
  ◌≡◌, refl, ◌↔◌, true, ◌||◌, List, [], ◌∷◌, some, arith, Text, codes, All, any, has_char, inl,
}
use synapse_guardian.Prelude.Result.{err}
use synapse_guardian.Unicode.{ascii}
use synapse_guardian.Tests.Opened.{policy_opened}
use synapse_guardian.Glob.{glob_to_regex}
use synapse_guardian.Glob.Regex.{literal, at_least, matches}
use synapse_guardian.Glob.Meaning.{GlobMatches}
use synapse_guardian.Glob.Correct.{glob_to_regex_iff}
use synapse_guardian.Policy.Kinds.{protected_user, allowed_server, blocked_user}
use synapse_guardian.Policy.Patterns.{catch_all}
use synapse_guardian.Policy.Rules.{Entry, RuleSet, build, build_strict, evaluate, rule_matches}
use synapse_guardian.Policy.Permitted.{Permitted, IsCompiled, Hit, IsMxid}
use synapse_guardian.Policy.Built.{build-IsWellFormed, IsWellFormed→IsCompiled}
use synapse_guardian.Policy.Evaluation.{evaluate_iff}
use synapse_guardian.Policy.Newlines.{HasNoNewline, newline_evades_user_blocks}
use synapse_guardian.Policy.Payload.{to_payload, from_payload}
use synapse_guardian.Policy.Payload.RoundTrip.{IsStable, from_payload-to_payload}

abbrev pub kid : Text
kid = codes "@kid:h.org"

abbrev pub spammer : Text
spammer = codes "@spam1:good.org"

abbrev pub friend : Text
friend = codes "@Ann:Good.org"

abbrev family_entries : List Entry
family_entries =
    (protected_user, kid)
    ∷ (blocked_user, codes "@spam*:good.org")
    ∷ (allowed_server, codes "good.org")
    ∷ (allowed_server, codes "*.*")
    ∷ []

abbrev pub family : RuleSet
family = (build family_entries).0

runs_are_collapsed : glob_to_regex (codes "a?**?b") ≡ literal b'a' ∷ at_least 2 ∷ literal b'b' ∷ []
unfolding policy_opened
runs_are_collapsed = refl

family_keeps_one_server :
    (build_strict family_entries
      ≡ err (record { kind = allowed_server; pattern = codes "*.*"; error = catch_all }))
unfolding policy_opened
family_keeps_one_server = refl

friend_is_allowed :
    evaluate family friend
    ≡ record { allowed = true; rule = some (codes "allowed_server:good.org") }
unfolding policy_opened
friend_is_allowed = refl

glob_to_regex_iff_example :
    (matches (glob_to_regex (codes "@a*:?.org")) (codes "@Anne:x.org") ≡ true)
    ↔ GlobMatches (codes "@a*:?.org") (codes "@Anne:x.org")
glob_to_regex_iff_example = glob_to_regex_iff (codes "@a*:?.org") (codes "@Anne:x.org")

family-IsCompiled : IsCompiled family
family-IsCompiled = IsWellFormed→IsCompiled (build-IsWellFormed family_entries)

evaluate_iff_example : ((evaluate family friend).allowed ≡ true) ↔ Permitted family friend
evaluate_iff_example = evaluate_iff family friend family-IsCompiled

abbrev pub strict_entries : List Entry
strict_entries = (blocked_user, codes "@ann:*") ∷ (protected_user, codes "@Second:h.org") ∷ []

abbrev pub strict : RuleSet
strict = (build strict_entries).0

ann_is_blocked :
    (any (rule_matches friend) family.blocked_users
      || any (rule_matches friend) strict.blocked_users)
    ≡ true
unfolding policy_opened
ann_is_blocked = refl

pub strict-IsStable : All IsStable strict.protected_users
unfolding policy_opened
strict-IsStable = (record { lower_fixed = refl; valid = refl }, tt)

from_payload-to_payload_example : from_payload (to_payload strict) ≡ strict
from_payload-to_payload_example =
    from_payload-to_payload strict (build-IsWellFormed strict_entries) strict-IsStable

abbrev forged : Text
forged = codes "@spam\n:good.org"

forged-IsMxid : IsMxid forged (codes "good.org")
forged-IsMxid = record {
  local = codes "spam\n";
  spelled = refl;
  first_colon = unfold has_char in refl;
}

good_server-matches : GlobMatches (codes "good.org") (codes "good.org")
good_server-matches =
    (glob_to_regex_iff (codes "good.org") (codes "good.org")).0 (unfold policy_opened in refl)

good_server-Hit : Hit (codes "good.org") family.allowed_servers
unfolding policy_opened
good_server-Hit = inl good_server-matches

globs_without_newline : HasNoNewline (codes "@spam*:good.org")
globs_without_newline = (
  refl,
  (
    refl,
    (
      refl,
      (
        refl,
        (refl, (refl, (refl, (refl, (refl, (refl, (refl, (refl, (refl, (refl, (refl, tt))))))))))),
      ),
    ),
  ),
)

newline_evades_user_blocks_example : (evaluate family forged).allowed ≡ true
unfolding policy_opened
newline_evades_user_blocks_example =
    newline_evades_user_blocks family forged (codes "good.org") family-IsCompiled
      (globs_without_newline, tt) refl forged-IsMxid (omega arith) (λ h. h) good_server-Hit
