-- ===== src/Session.antt =====
-- server/internal/session/session.go: the state machine of one connection. Each method takes the
-- session's lock for its whole body, so a method is one step; it returns the new session. The
-- message types are those of proto/common.proto, and any other number is `unknown`.
pub mod Matrix
pub mod Graph
pub mod History
mod Tests
use Prim.Native.String.{String}
use the_return_of_the_odysse.Base.{
  ℕ, Bool, true, false, Option, none, some, List, [], ◌∷◌, if◌then◌else◌, ◌||◌, not, ◌==◌,
}

pub data State : Type 0 where
  connected lobby matching in_room reward disconnected closed : State

-- The numbers of the constants, from `iota + 1`; Go compares states by them.
abbrev pub code : State → ℕ
code connected = 1
code lobby = 2
code matching = 3
code in_room = 4
code reward = 5
code disconnected = 6
code closed = 7

abbrev pub is : State → State → Bool
is a b = code a == code b

-- `State.String`
pub name : State → String
name connected = "connected"
name lobby = "lobby"
name matching = "matching"
name in_room = "in_room"
name reward = "reward"
name disconnected = "disconnected"
name closed = "closed"

pub data MessageType : Type 0 where
  ping pong disconnect : MessageType
  login_request login_response resume_request resume_response : MessageType
  match_request match_found match_cancel : MessageType
  player_input world_snapshot : MessageType
  projectile_spawn projectile_destroy damage_event death_event entity_removed : MessageType
  stage_started_event stage_cleared_event team_defeated_event : MessageType
  stage_started stage_cleared reward_options reward_choice reward_applied : MessageType
  next_stage_request performance_metrics stage_plan : MessageType
  unknown : ℕ → MessageType

pub data Reason : Type 0 where
  reason_ok invalid_state : Reason

-- `legalityMatrix[state][mt]`; a missing entry reads `false`.
pub legality_matrix : State → MessageType → Bool
legality_matrix connected login_request = true
legality_matrix connected resume_request = true
legality_matrix lobby match_request = true
legality_matrix lobby match_cancel = true
legality_matrix matching match_request = true
legality_matrix matching match_cancel = true
legality_matrix in_room match_request = true
legality_matrix in_room player_input = true
legality_matrix in_room next_stage_request = true
legality_matrix reward player_input = true
legality_matrix reward reward_choice = true
legality_matrix reward next_stage_request = true
legality_matrix _ _ = false

abbrev is_heartbeat : MessageType → Bool
is_heartbeat ping = true
is_heartbeat pong = true
is_heartbeat _ = false

pub record Session : Type 0 where
  pub state : State
  pub session_id : ℕ
  pub player_id : ℕ
  pub room_id : ℕ

-- `New`
unfoldable pub new : Session
new = record { state = connected; session_id = 0; player_id = 0; room_id = 0 }

-- `Accept`
unfoldable pub accept : Session → MessageType → Bool × Reason
unfolding legality_matrix
accept s mt =
    if is s.state closed
    then (false, invalid_state)
    else if is s.state disconnected
    then (false, invalid_state)
    else if is_heartbeat mt
    then (true, reason_ok)
    else if legality_matrix s.state mt
    then (true, reason_ok)
    else (false, invalid_state)

-- `canTransition`: nothing leaves `closed`; then by the state to enter.
pub can_transition : State → State → Bool
can_transition from to = if is from closed then false else elim to [
  | closed ↦ true
  | disconnected ↦ not (is from closed)
  | lobby ↦ is from connected || is from matching
  | matching ↦ is from lobby
  | in_room ↦ is from matching || is from reward || is from disconnected
  | reward ↦ is from in_room
  | connected ↦ is from disconnected
]

-- `Transition`
unfoldable pub transition : State → Session → Session × Bool
unfolding can_transition
transition to s = if can_transition s.state to then (record s { state = to }, true) else (s, false)

-- `BindRoom`
unfoldable pub bind_room : ℕ → Session → Session
bind_room id s = record s { room_id = id }

-- `AssignIdentity`
unfoldable pub assign_identity : ℕ → ℕ → Session → Session
assign_identity sid pid s = record s { session_id = sid; player_id = pid }
