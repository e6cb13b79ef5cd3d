-- ===== src/Session/History.antt =====
-- session.go: what holds of a session after any calls of its methods.
use the_return_of_the_odysse.Base.{
  ℕ, ◌≡◌, refl, sym, ◌⊎◌, inl, inr, Bool, true, false, List, [], ◌∷◌, arith,
}
use mathlib.Core.List.{Memᴰ}
use the_return_of_the_odysse.Session.{
  State, connected, lobby, matching, disconnected, closed, MessageType, player_input, Session, new,
  accept, transition, bind_room, assign_identity, reason_ok, invalid_state,
}

-- The calls that change a session.
pub data Call : Type 0 where
  enters : State → Call
  binds : ℕ → Call
  assigns : ℕ → ℕ → Call

unfoldable pub apply : Call → Session → Session
apply (enters to) s = (transition to s).0
apply (binds id) s = bind_room id s
apply (assigns sid pid) s = assign_identity sid pid s

unfoldable pub run : List Call → Session → Session
run [] s = s
run (c ∷ cs) s = run cs (apply c s)

apply-closed : (c : Call) (s : Session) → s.state ≡ closed → (apply c s).state ≡ closed
unfolding apply transition bind_room assign_identity
apply-closed (enters to) s e = ground arith
apply-closed _ s e = ground arith

run-closed : (cs : List Call) (s : Session) → s.state ≡ closed → (run cs s).state ≡ closed
unfolding run
run-closed [] s e = e
run-closed (c ∷ cs) s e = run-closed cs (apply c s) (apply-closed c s e)

closed-refuses :
    (s : Session) (m : MessageType) → s.state ≡ closed → accept s m ≡ (false, invalid_state)
unfolding accept
closed-refuses s m e = ground arith

-- `closed` is final: after any further calls the session is closed still, and it refuses every
-- message, heartbeats included.
pub closed_for_good :
    (s : Session) (cs : List Call) (m : MessageType)
    → s.state ≡ closed
    → ((run cs s).state ≡ closed) × (accept (run cs s) m ≡ (false, invalid_state))
closed_for_good s cs m e =
    let still = run-closed cs s e in (still, closed-refuses (run cs s) m still)

-- The states before a session has been in the queue or has lost its connection.
abbrev is_early : State → Bool
is_early connected = true
is_early lobby = true
is_early closed = true
is_early _ = false

apply_early :
    (c : Call) (s : Session)
    → is_early s.state ≡ true
    → (c ≡ enters matching) ⊎ (c ≡ enters disconnected) ⊎ (is_early (apply c s).state ≡ true)
unfolding apply transition bind_room assign_identity
apply_early (enters to) s e = ground arith
apply_early _ s e = ground arith

run_early :
    (cs : List Call) (s : Session)
    → is_early s.state ≡ true
    → Memᴰ (enters matching) cs ⊎ Memᴰ (enters disconnected) cs ⊎ (is_early (run cs s).state ≡ true)
unfolding run
run_early [] s e = inr (inr e)
run_early (c ∷ cs) s e = elim (apply_early c s e) [
  | inl p ↦ inl (Memᴰ.head (sym p))
  | inr (inl p) ↦ inr (inl (Memᴰ.head (sym p)))
  | inr (inr p) ↦ elim (run_early cs (apply c s) p) [
    | inl m ↦ inl (Memᴰ.tail m)
    | inr (inl m) ↦ inr (inl (Memᴰ.tail m))
    | inr (inr q) ↦ inr (inr q)
  ]
]

input_state : (s : Session) → accept s player_input ≡ (true, reason_ok) → is_early s.state ≡ false
unfolding accept
input_state s e = ground arith

-- A session lets a player's input through only if it was put into the match queue before, or comes
-- back from a lost connection: nobody plays straight after login.
pub input-needs_match :
    (cs : List Call)
    → accept (run cs new) player_input ≡ (true, reason_ok)
    → Memᴰ (enters matching) cs ⊎ Memᴰ (enters disconnected) cs
unfolding new
input-needs_match cs e = elim (run_early cs new refl) [
  | inl m ↦ inl m
  | inr (inl m) ↦ inr m
  | inr (inr q) ↦ cc (input_state (run cs new) e)
]
