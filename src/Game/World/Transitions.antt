-- ===== src/Game/World/Transitions.antt =====
-- The states of a stage and what moves it from one to the next.
pub mod Endings
pub mod Edges
use the_return_of_the_odysse.Base.{
  ℕ, ◌≡◌, refl, sym, ap, ◌∙◌, true, List, [], ◌∷◌, arith, ◌==◌, get_or,
}
use the_return_of_the_odysse.Game.Equipment.{Catalog}
use the_return_of_the_odysse.Game.Stage.{
  StageState, waiting, playing, stage_clear, reward, preparing_next_stage, failed, closed,
  state_number, is_state, Plan,
}
use the_return_of_the_odysse.Game.World.{World, is_stage}
use the_return_of_the_odysse.Game.World.Calls.{
  Call, leaves, ticks, starts, rewards, chooses, closes,
}

abbrev state_of : ℕ → StageState
state_of n =
    get_or (waiting ∷ playing ∷ stage_clear ∷ reward ∷ preparing_next_stage ∷ failed ∷ closed ∷ [])
      n waiting

state_of-number : (s : StageState) → state_of (state_number s) ≡ s
state_of-number waiting = refl
state_of-number playing = refl
state_of-number stage_clear = refl
state_of-number reward = refl
state_of-number preparing_next_stage = refl
state_of-number failed = refl
state_of-number closed = refl

pub is_state_eq : (a b : StageState) → is_state a b ≡ true → a ≡ b
is_state_eq a b h =
    let e : state_number a ≡ state_number b = ground arith in
    sym (state_of-number a) ∙ ap state_of e ∙ state_of-number b

-- The diagram: which call moves a stage along which edge.
pub data Edge {F : Type 0} : Call F → StageState → StageState → Type 0 where
  stays : {c : Call F} {s : StageState} → Edge c s s
  begins : {p : Plan F} → Edge (starts p) waiting playing
  resumes : {p : Plan F} → Edge (starts p) preparing_next_stage playing
  clears : {now : ℕ} → Edge (ticks now) playing stage_clear
  loses : {now : ℕ} → Edge (ticks now) playing failed
  offers :
      {address seed duration : ℕ} {c : Catalog F}
      → Edge (rewards address c seed duration) stage_clear reward
  last_choice : {player id : ℕ} → Edge (chooses player id) reward preparing_next_stage
  last_default : {now : ℕ} → Edge (ticks now) reward preparing_next_stage
  last_leaver : {id : ℕ} → Edge (leaves id) reward preparing_next_stage
  shuts : {s : StageState} → Edge closes s closed
