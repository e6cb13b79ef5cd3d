-- ===== src/Game/World/Calls.antt =====
-- server/internal/game: the calls that change a world, as the room's goroutine makes them one after the
-- other. A call that returns an error leaves the world as it is; `none` is a panic.
use the_return_of_the_odysse.Base.{ℕ, Option, none, some, List, [], ◌∷◌}
use the_return_of_the_odysse.Base.Floats.{Float64}
use the_return_of_the_odysse.Base.Results.{Result, ok, err}
use the_return_of_the_odysse.Game.Equipment.{Catalog}
use the_return_of_the_odysse.Game.Stage.{Plan}
use the_return_of_the_odysse.Game.World.{
  Error, Input, World, world_add_player, world_remove_player, world_apply_input, close_world,
}
use the_return_of_the_odysse.Game.World.Stages.{start_stage, take_events}
use the_return_of_the_odysse.Game.World.Rewards.{start_reward, choose_reward, take_reward_updates}
use the_return_of_the_odysse.Game.World.Ticks.{step}

pub data Call (F : Type 0) : Type 0 where
  adds leaves : ℕ → Call F
  hears : ℕ → Input F → ℕ → Call F
  ticks : ℕ → Call F
  starts : Plan F → Call F
  rewards : ℕ → Catalog F → ℕ → ℕ → Call F
  chooses : ℕ → ℕ → Call F
  takes_events takes_updates closes : Call F

-- The world after a call that can fail.
abbrev pub or_same : {F : Type 0} → Result Error (World F) → World F → World F
or_same (err e) w = w
or_same (ok w') w = w'

module _ {F : Type 0} ⦃f : Float64 F⦄ where
  abbrev pub call : Call F → World F → Option (World F)
  call (adds id) w = some (or_same (world_add_player id w) w)
  call (leaves id) w = some (world_remove_player id w)
  call (hears id i at) w = some (or_same (world_apply_input id i at w) w)
  call (ticks now) w = step now w
  call (starts p) w = some (or_same (start_stage p w) w)
  call (rewards address c seed duration) w =
      some (or_same (start_reward address c seed duration w) w)
  call (chooses player equipment) w = some (or_same (choose_reward player equipment w) w)
  call takes_events w = some (take_events w).1
  call takes_updates w = some (take_reward_updates w).1
  call closes w = some (close_world w)

  -- A whole history of calls.
  abbrev pub calls : List (Call F) → World F → Option (World F)
  calls [] w = some w
  calls (c ∷ cs) w = elim (call c w) [ none ↦ none | some w' ↦ calls cs w' ]
