-- ===== src/Policy/Kinds.antt =====
-- The rule kinds of policy.py and their names.
use synapse_guardian.Prelude.{Bool, true, false, List, [], ◌∷◌, ◌++◌, Text, codes}

-- A kind is a text in the source. `unknown` is any text but the five names.
pub data Kind : Type 0 where
  protected_user allowed_server allowed_user blocked_user blocked_server : Kind
  unknown : Text → Kind

-- kind in USER_KINDS
unfoldable pub is_user_kind : Kind → Bool
is_user_kind allowed_user = true
is_user_kind blocked_user = true
is_user_kind _ = false

-- kind in SERVER_KINDS
unfoldable pub is_server_kind : Kind → Bool
is_server_kind allowed_server = true
is_server_kind blocked_server = true
is_server_kind _ = false

-- kind in ALLOW_KINDS
unfoldable pub is_allow_kind : Kind → Bool
is_allow_kind allowed_user = true
is_allow_kind allowed_server = true
is_allow_kind _ = false

-- kind == KIND_PROTECTED_USER
unfoldable pub is_protected_kind : Kind → Bool
is_protected_kind protected_user = true
is_protected_kind _ = false

unfoldable pub kind_name : Kind → Text
kind_name protected_user = codes "protected_user"
kind_name allowed_server = codes "allowed_server"
kind_name allowed_user = codes "allowed_user"
kind_name blocked_user = codes "blocked_user"
kind_name blocked_server = codes "blocked_server"
kind_name (unknown name) = name

-- PLURAL[kind]
unfoldable pub plural : Kind → Text
unfolding kind_name
plural kind = kind_name kind ++ codes "s"

unfoldable pub rule_kinds : List Kind
rule_kinds = blocked_user ∷ allowed_user ∷ blocked_server ∷ allowed_server ∷ []

unfoldable pub all_kinds : List Kind
unfolding rule_kinds
all_kinds = protected_user ∷ rule_kinds
