-- ===== src/Session/Graph.antt =====
-- session.go, `Transition`, against the diagram of docs/protocol/message-routing.md.
use the_return_of_the_odysse.Base.{
  ◌≡◌, refl, ap₂, ◌⊎◌, inl, inr, Bool, true, false, ◌&&◌, ◌||◌, Bool-cases, arith,
}
use the_return_of_the_odysse.Session.{
  State, connected, lobby, matching, in_room, reward, disconnected, closed, is, Session,
  can_transition, transition,
}

pub data IsLive : State → Type 0 where
  live_connected : IsLive connected
  live_lobby : IsLive lobby
  live_matching : IsLive matching
  live_in_room : IsLive in_room
  live_reward : IsLive reward
  live_disconnected : IsLive disconnected

-- The diagram, a row after the other; `*` is every state but `closed`, which the document calls final.
infix 40 ◌⟶◌
pub data ◌⟶◌ : State → State → Type 0 where
  login : connected ⟶ lobby
  request : lobby ⟶ matching
  found : matching ⟶ in_room
  cancel : matching ⟶ lobby
  steady : in_room ⟶ in_room
  offer : in_room ⟶ reward
  choose : reward ⟶ in_room
  lose : {s : State} → IsLive s → s ⟶ disconnected
  resume : disconnected ⟶ in_room
  resume_in_lobby : disconnected ⟶ lobby
  expire : {s : State} → IsLive s → s ⟶ closed

-- The two arrows of the diagram that `Transition` refuses.
abbrev pub is_refused_arrow : State → State → Bool
is_refused_arrow from to =
    (is to lobby && is from disconnected) || (is to in_room && is from in_room)

-- What the code follows: the diagram but for those two, and one arrow of its own, the rebinding.
abbrev pub Followed : State → State → Type 0
Followed from to =
    ((from ⟶ to) × (is_refused_arrow from to ≡ false)) ⊎ ((from ≡ disconnected) × (to ≡ connected))

ruleset arrows = (login, request, cancel, found, offer, choose, resume, lose, expire)

ruleset lives =
    (live_connected, live_lobby, live_matching, live_in_room, live_reward, live_disconnected)

followed : (from to : State) → can_transition from to ≡ true → Followed from to
unfolding can_transition
followed disconnected connected e = inr (refl, refl)
followed from to e = inl (grind (arith, arrows, lives), ground arith)

IsLive-open : {q : State} → IsLive q → is q closed ≡ false
IsLive-open live_connected = refl
IsLive-open _ = refl

arrow-possible :
    {from to : State} → from ⟶ to → is_refused_arrow from to ≡ false → can_transition from to ≡ true
unfolding can_transition
arrow-possible steady e = cc
arrow-possible resume_in_lobby e = cc
arrow-possible (lose l) e = ground (arith, IsLive-open l)
arrow-possible (expire l) e = ground (arith, IsLive-open l)
arrow-possible _ e = refl

Followed-possible : (from to : State) → Followed from to → can_transition from to ≡ true
unfolding can_transition
Followed-possible from to (inl (arrow, e)) = arrow-possible arrow e
Followed-possible from to (inr (e, e')) = ap₂ can_transition e e'

-- A transition is taken exactly along an arrow of the diagram in docs/protocol/message-routing.md,
-- other than the resumption in the lobby and the loop of a room, or from `disconnected` back to
-- `connected`; it then changes the state to the one asked for and neither identity nor room.
-- Otherwise it reports failure and changes nothing.
pub transition-arrow :
    (s : Session) (to : State)
    → ((transition to s ≡ (record s { state = to }, true)) × Followed s.state to)
      ⊎ ((transition to s ≡ (s, false)) × ¬ Followed s.state to)
unfolding transition
transition-arrow s to = elim (Bool-cases (can_transition s.state to)) [
  | inl e ↦ inl (rw e refl, followed s.state to e)
  | inr e ↦ inr (rw e refl, λ h. let e' = Followed-possible s.state to h in ground arith)
]
