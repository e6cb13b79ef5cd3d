-- ===== src/Session/Matrix.antt =====
-- session.go, `Accept`, against the matrix of docs/protocol/message-routing.md.
use the_return_of_the_odysse.Base.{◌≡◌, refl, ◌⊎◌, inl, inr, true, false, Bool-cases, arith}
use the_return_of_the_odysse.Session.{
  State, connected, lobby, matching, in_room, reward, MessageType, ping, pong, login_request,
  resume_request, match_request, match_cancel, player_input, reward_choice, next_stage_request,
  reason_ok, invalid_state, Session, accept,
}

-- The rows of the document for messages that a client sends, row by row.
pub data Legal : MessageType → State → Type 0 where
  ping_connected : Legal ping connected
  ping_lobby : Legal ping lobby
  ping_matching : Legal ping matching
  ping_in_room : Legal ping in_room
  ping_reward : Legal ping reward
  pong_connected : Legal pong connected
  pong_lobby : Legal pong lobby
  pong_matching : Legal pong matching
  pong_in_room : Legal pong in_room
  pong_reward : Legal pong reward
  login : Legal login_request connected
  resume : Legal resume_request connected
  request_lobby : Legal match_request lobby
  request_matching : Legal match_request matching
  request_in_room : Legal match_request in_room
  cancel_lobby : Legal match_cancel lobby
  cancel_matching : Legal match_cancel matching
  input_in_room : Legal player_input in_room
  input_reward : Legal player_input reward
  choice : Legal reward_choice reward
  next_in_room : Legal next_stage_request in_room
  next_reward : Legal next_stage_request reward

ruleset heartbeats = (
  ping_connected, ping_lobby, ping_matching, ping_in_room, ping_reward, pong_connected, pong_lobby,
  pong_matching, pong_in_room, pong_reward,
)

ruleset requests = (
  login, resume, request_lobby, request_matching, request_in_room, cancel_lobby, cancel_matching,
  input_in_room, input_reward, choice, next_in_room, next_reward,
)

Legal-accepted :
    (s : Session) (m : MessageType) (q : State)
    → s.state ≡ q
    → Legal m q
    → accept s m ≡ (true, reason_ok)
unfolding accept
Legal-accepted s m q e ping_connected = ground arith
Legal-accepted s m q e _ = ground arith

accepted-Legal : (s : Session) (m : MessageType) → (accept s m).0 ≡ true → Legal m s.state
unfolding accept
accepted-Legal s m e = grind (arith, heartbeats, requests)

refused_plainly :
    (s : Session) (m : MessageType) → (accept s m).0 ≡ false → accept s m ≡ (false, invalid_state)
unfolding accept
refused_plainly s m e = ground arith

-- A message from a client is let through exactly in the states in which the protocol's matrix
-- allows it; every other message is refused with `invalid_state`.
pub accept-matrix :
    (s : Session) (m : MessageType)
    → ((accept s m ≡ (true, reason_ok)) × Legal m s.state)
      ⊎ ((accept s m ≡ (false, invalid_state)) × ¬ Legal m s.state)
accept-matrix s m = elim (Bool-cases (accept s m).0) [
  | inl passed ↦
      let allowed = accepted-Legal s m passed in
      inl (Legal-accepted s m s.state refl allowed, allowed)
  | inr stopped ↦ inr (
    refused_plainly s m stopped,
    λ allowed. ground (arith, Legal-accepted s m s.state refl allowed),
  )
]
