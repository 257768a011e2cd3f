-- ===== src/Config/Valid.antt =====
-- What a configuration that `parse` accepts satisfies.
use synapse_guardian.Prelude.{
  ◌≡◌, subst, Bool, true, false, Option, none, some, arith, Text, codes, starts_with, inl, inr,
}
use synapse_guardian.Prelude.Result.{ok, ok-injective, >>=-eq-ok, Result-cases}
use synapse_guardian.Unicode.{Unicode}
use synapse_guardian.Value.{Value, Fields, is_set, get_or, str}
use synapse_guardian.Policy.Kinds.{all_kinds}
use synapse_guardian.Policy.Patterns.{is_user_id}
use synapse_guardian.Policy.Rules.{RuleSet, build_strict}
use synapse_guardian.Policy.Building.{IsWellFormed}
use synapse_guardian.Policy.Built.{build_strict-IsWellFormed}
use synapse_guardian.Config.{
  Transport, room, bot, Config, opt_str, bool_or, number_or, join_policy_of, transport_of,
  config_entries,
}
use synapse_guardian.Config.Parse.{
  mapping_of, check_keys, check_control_room, check_transport, secret, check_notify_user,
  static_rules_of, parse_mapping, parse,
}

-- there is a text
abbrev pub IsThere : Option Text → Type 0
IsThere none = ⊥
IsThere (some s) = Unit

-- What `Guardian.__init__` asserts before it builds a notifier.
abbrev pub HasTransport :
    Bool → Transport → Option Text → Option Text → Option Text → Option Text → Type 0
HasTransport false via control_room notify_user url secret = Unit
HasTransport true room control_room notify_user url secret =
    IsThere control_room × IsThere notify_user
HasTransport true bot control_room notify_user url secret =
    (is_set url ≡ true) × (is_set secret ≡ true)

abbrev pub IsRoomId : Option Text → Type 0
IsRoomId none = Unit
IsRoomId (some room_id) = starts_with b'!' room_id ≡ true

check_control_room_ok : (r : Option Text) → check_control_room r ≡ ok tt → IsRoomId r
unfolding check_control_room
check_control_room_ok none h = tt
check_control_room_ok (some room_id) h = ground arith

check_transport_ok :
    (on : Bool) (via : Transport) (c n url s : Option Text)
    → check_transport on via c n url s ≡ ok tt
    → HasTransport on via c n url s
unfolding check_transport
check_transport_ok false via c n url s h = tt
check_transport_ok true room none n url s h = cc
check_transport_ok true room (some c) none url s h = cc
check_transport_ok true room (some c) (some n) url s h = (tt, tt)
check_transport_ok true bot c n url s h = ground arith

module _ ⦃u : Unicode⦄ where
  abbrev pub IsNotifyUser : Option Text → Type 0
  IsNotifyUser none = Unit
  IsNotifyUser (some id) = is_user_id id ≡ true

  pub record IsValid (c : Config) : Type 0 where
    pub rules_valid : IsWellFormed c.static_rules
    pub room_valid : IsRoomId c.control_room
    pub user_valid : IsNotifyUser c.notify_user
    pub transport_valid :
        HasTransport c.notify_room c.notify_via c.control_room c.notify_user c.notify_url
          c.notify_secret

  check_notify_user_ok : (r : Option Text) → check_notify_user r ≡ ok tt → IsNotifyUser r
  unfolding check_notify_user
  check_notify_user_ok none h = tt
  check_notify_user_ok (some id) h = ground arith

  static_rules_of_ok :
      (cfg : Fields) (rules : RuleSet) → static_rules_of cfg ≡ ok rules → IsWellFormed rules
  unfolding static_rules_of
  static_rules_of_ok cfg rules h =
      let (entries, e, r) = >>=-eq-ok (config_entries cfg all_kinds) _ h in
      elim (Result-cases (build_strict entries)) [
        | inl (built, b) ↦
            subst IsWellFormed (ok-injective (rw b at r))
              (build_strict-IsWellFormed entries built b)
        | inr (report, b) ↦ absurd (cc (rw b at r))
      ]

module _ ⦃u : Unicode⦄ (read_file : Text → Option Text) where
  parse_mapping-IsValid :
      (cfg : Fields) (c : Config) → parse_mapping read_file cfg ≡ ok c → IsValid c
  unfolding parse_mapping
  parse_mapping-IsValid cfg c h₀ =
      let (_, keys, h₁) = >>=-eq-ok (check_keys cfg) _ h₀ in
      let (rules, rules_ok, h₂) = >>=-eq-ok (static_rules_of cfg) _ h₁ in
      let (control, e₃, h₃) = >>=-eq-ok (opt_str cfg (codes "control_room")) _ h₂ in
      let (_, control_ok, h₄) = >>=-eq-ok (check_control_room control) _ h₃ in
      let (joins, e₅, h₅) =
        >>=-eq-ok
          (join_policy_of (get_or (codes "uninvited_joins") (str (codes "known_rooms")) cfg)) _
          h₄ in
      let (on, e₆, h₆) = >>=-eq-ok (bool_or cfg (codes "notify_room") false) _ h₅ in
      let (user, e₇, h₇) = >>=-eq-ok (opt_str cfg (codes "notify_user")) _ h₆ in
      let (_, user_ok, h₈) = >>=-eq-ok (check_notify_user user) _ h₇ in
      let (via, e₉, h₉) =
        >>=-eq-ok (transport_of (get_or (codes "notify_via") (str (codes "room")) cfg)) _ h₈ in
      let (url, e₁₀, h₁₀) = >>=-eq-ok (opt_str cfg (codes "notify_url")) _ h₉ in
      let (key, e₁₁, h₁₁) =
        >>=-eq-ok (secret read_file cfg (codes "notify_secret") (codes "notify_secret_path")) _
          h₁₀ in
      let (_, transport_ok, h₁₂) = >>=-eq-ok (check_transport on via control user url key) _ h₁₁ in
      let (dedupe, e₁₃, h₁₃) = >>=-eq-ok (number_or cfg (codes "notify_dedupe_s") 300) _ h₁₂ in
      let (refresh, e₁₄, h₁₄) = >>=-eq-ok (number_or cfg (codes "refresh_interval_s") 15) _ h₁₃ in
      let (watch, e₁₅, h₁₅) = >>=-eq-ok (bool_or cfg (codes "watch_control_room") false) _ h₁₄ in
      let (strict, e₁₆, h₁₆) = >>=-eq-ok (bool_or cfg (codes "strict_local_events") false) _ h₁₅ in
      let (dry, e₁₇, h₁₇) = >>=-eq-ok (bool_or cfg (codes "dry_run") false) _ h₁₆ in
      subst IsValid (ok-injective h₁₇) (record {
        rules_valid = static_rules_of_ok cfg rules rules_ok;
        room_valid = check_control_room_ok control control_ok;
        user_valid = check_notify_user_ok user user_ok;
        transport_valid = check_transport_ok on via control user url key transport_ok;
      })

  -- A configuration that is accepted has well-formed static rules, a room ID for its control room,
  -- a user ID for the notifying user, and all that `Guardian.__init__` asserts of the transport.
  pub parse-IsValid : (value : Value) (c : Config) → parse read_file value ≡ ok c → IsValid c
  unfolding parse
  parse-IsValid value c h =
      let (cfg, e, r) = >>=-eq-ok (mapping_of value) _ h in parse_mapping-IsValid cfg c r
