-- ===== src/Guardian/Reasons/KnownRooms.antt =====
-- When `_known_room_reason` finds nothing against a room.
use synapse_guardian.Prelude.{
  ◌≡◌, ◌⊎◌, refl, sym, ◌∙◌, inl, inr, ◌↔◌, true, false, not, ◌&&◌, [], ◌∷◌, none, some, arith,
  if◌then◌else◌, Text, codes, text_eq, Bool-cases, Some, All,
}
use synapse_guardian.Prelude.Result.{ok, err, Result-cases}
use synapse_guardian.Unicode.{Unicode}
use synapse_guardian.Value.{Value, is_text}
use synapse_guardian.Matrix.{Event, RoomState, Api}
use synapse_guardian.Policy.Rules.{RuleSet, evaluate}
use synapse_guardian.Guardian.{Raised}
use synapse_guardian.Guardian.Reasons.{
  membership_of, is_present, local_joined, member_reason, stranger_reason, room_reason,
}

-- a member of this server has joined
pub IsLocalMember : Api → Event → Type 0
IsLocalMember api e =
    (membership : Value) × (membership_of e.content ≡ ok membership)
    × (is_text (codes "join") membership ≡ true)
    × (api.is_mine e.state_key ≡ true)

module _ ⦃u : Unicode⦄ where
  -- The membership can be read, and is not that of a member other than the user who is joined or
  -- invited and not allowed.
  pub IsAcceptable : RuleSet → Text → Event → Type 0
  IsAcceptable rules user_id e =
      (membership : Value) × (membership_of e.content ≡ ok membership)
      × ((is_text (codes "join") membership ≡ true) ⊎ (is_text (codes "invite") membership ≡ true)
          → text_eq (u.lower e.state_key) (u.lower user_id) ≡ false
          → (evaluate rules e.state_key).allowed ≡ true)

  stranger_read :
      (rules : RuleSet) (user_id : Text) (e : Event) (state : RoomState) (m : Value)
      → membership_of e.content ≡ ok m
      → stranger_reason rules user_id (e ∷ state) ≡ (
          if is_present m
            && not (text_eq (u.lower e.state_key) (u.lower user_id))
            && not (evaluate rules e.state_key).allowed
          then ok (some (member_reason rules e.state_key))
          else stranger_reason rules user_id state)
  unfolding stranger_reason
  stranger_read rules user_id e state m read = rw (read, stranger_reason) (ground arith)

  stranger_failed :
      (rules : RuleSet) (user_id : Text) (e : Event) (state : RoomState) (x : Raised)
      → membership_of e.content ≡ err x
      → stranger_reason rules user_id (e ∷ state) ≡ err x
  unfolding stranger_reason
  stranger_failed rules user_id e state x failed = rw (failed, stranger_reason) refl

  one_stranger :
      (rules : RuleSet) (user_id : Text) (e : Event) (state : RoomState)
      → stranger_reason rules user_id (e ∷ state) ≡ ok none
      → IsAcceptable rules user_id e × (stranger_reason rules user_id state ≡ ok none)
  unfolding IsAcceptable is_present
  one_stranger rules user_id e state h = elim (Result-cases (membership_of e.content)) [
    | inl (m, read) ↦
        let step = sym (stranger_read rules user_id e state m read) ∙ h in
        (
          (m, read, λ p s. elim p [ inl joined ↦ ground arith | inr invited ↦ ground arith ]),
          ground arith,
        )
    | inr (x, failed) ↦ let bad = sym (stranger_failed rules user_id e state x failed) ∙ h in cc
  ]

  no_stranger :
      (rules : RuleSet) (user_id : Text) (e : Event) (state : RoomState)
      → IsAcceptable rules user_id e
      → stranger_reason rules user_id state ≡ ok none
      → stranger_reason rules user_id (e ∷ state) ≡ ok none
  unfolding IsAcceptable is_present
  no_stranger rules user_id e state (m, read, fine) rest =
      rw (stranger_read rules user_id e state m read) (ground arith)

  no_stranger_iff :
      (rules : RuleSet) (user_id : Text) (state : RoomState)
      → (stranger_reason rules user_id state ≡ ok none) ↔ All (IsAcceptable rules user_id) state
  no_stranger_iff rules user_id [] = (λ h. tt, λ h. unfold stranger_reason in refl)
  no_stranger_iff rules user_id (e ∷ state) =
      let ih = no_stranger_iff rules user_id state in
      (
        λ h. let (fine, rest) = one_stranger rules user_id e state h in (fine, ih.0 rest),
        λ h. no_stranger rules user_id e state h.0 (ih.1 h.1),
      )

local_read :
    (api : Api) (e : Event) (state : RoomState) (m : Value)
    → membership_of e.content ≡ ok m
    → local_joined api (e ∷ state) ≡ (
        if is_text (codes "join") m && api.is_mine e.state_key
        then ok true
        else local_joined api state)
unfolding local_joined
local_read api e state m read = rw (read, local_joined) refl

local_failed :
    (api : Api) (e : Event) (state : RoomState) (x : Raised)
    → membership_of e.content ≡ err x
    → local_joined api (e ∷ state) ≡ err x
unfolding local_joined
local_failed api e state x failed = rw (failed, local_joined) refl

local_joined_sound :
    (api : Api) (state : RoomState)
    → local_joined api state ≡ ok true
    → Some (IsLocalMember api) state
unfolding IsLocalMember
local_joined_sound api [] h = unfold local_joined in cc
local_joined_sound api (e ∷ state) h = elim (Result-cases (membership_of e.content)) [
  | inl (m, read) ↦
      let step = sym (local_read api e state m read) ∙ h in
      elim (Bool-cases (is_text (codes "join") m && api.is_mine e.state_key)) [
        | inl there ↦ inl (m, read, ground arith, ground arith)
        | inr away ↦ inr (local_joined_sound api state (ground arith))
      ]
  | inr (x, failed) ↦ let bad = sym (local_failed api e state x failed) ∙ h in cc
]

module _ ⦃u : Unicode⦄ where
  local_joined_complete :
      (api : Api) (rules : RuleSet) (user_id : Text) (state : RoomState)
      → All (IsAcceptable rules user_id) state
      → Some (IsLocalMember api) state
      → local_joined api state ≡ ok true
  unfolding IsAcceptable IsLocalMember
  local_joined_complete api rules user_id [] fine there = elim there [ ]
  local_joined_complete api rules user_id (e ∷ state) ((m, read, f), rest)
        (inl (m', read', joined, mine)) =
      rw (local_read api e state m' read', joined, mine) refl
  local_joined_complete api rules user_id (e ∷ state) ((m, read, f), rest) (inr there) =
      let ih = local_joined_complete api rules user_id state rest there in
      rw (local_read api e state m read) (ground arith)

  -- Nothing is held against a room exactly if a member of this server has joined it, and every
  -- membership can be read and is not that of a stranger: of somebody other than the user who is
  -- joined or invited and whom the rules do not allow.
  pub room_reason_iff :
      (api : Api) (rules : RuleSet) (user_id : Text) (state : RoomState)
      → (room_reason api rules user_id state ≡ ok none)
        ↔ (Some (IsLocalMember api) state × All (IsAcceptable rules user_id) state)
  unfolding room_reason
  room_reason_iff api rules user_id state =
      let strangers = no_stranger_iff rules user_id state in
      (
        λ h. elim (Result-cases (local_joined api state)) [
          | inl (true, joined) ↦
              (local_joined_sound api state joined, strangers.0 (rw (joined, room_reason) at h))
          | inl (false, away) ↦ let bad = rw (away, room_reason) at h in cc
          | inr (x, failed) ↦ let bad = rw (failed, room_reason) at h in cc
        ],
        λ (there, fine).
            rw (local_joined_complete api rules user_id state fine there, room_reason)
              (strangers.1 fine),
      )
