-- ===== src/Game/Stage.antt =====
-- server/internal/game/stage/plan.go: the states of a stage, its plan and its view. `Plan.Clone` is the
-- identity on values. A `seed` is the bit pattern that `uint64(seed)` gives.
use the_return_of_the_odysse.Base.{
  ℕ, Bool, false, not, ◌&&◌, ◌||◌, List, [], ◌∷◌, ltb, ◌==◌, length,
}
use the_return_of_the_odysse.Base.Floats.{Float64, zero_f, odd_f}
use the_return_of_the_odysse.Game.Entity.{Vec2, CombatStats, finite, valid_stats}

-- `State`
pub data StageState : Type 0 where
  waiting playing stage_clear reward preparing_next_stage failed closed : StageState

-- The number of a state in the `iota` block.
abbrev pub state_number : StageState → ℕ
state_number waiting = 0
state_number playing = 1
state_number stage_clear = 2
state_number reward = 3
state_number preparing_next_stage = 4
state_number failed = 5
state_number closed = 6

-- `==` on states.
abbrev pub is_state : StageState → StageState → Bool
is_state a b = state_number a == state_number b

pub record Spawn (F : Type 0) : Type 0 where
  pub position : Vec2 F
  pub stats : CombatStats F
  pub radius : F
  pub attack_range : F

pub record Plan (F : Type 0) : Type 0 where
  pub index : ℕ
  pub seed : ℕ
  pub difficulty_score : F
  pub monsters : List (Spawn F)
  pub difficulty_adjustment : F
  pub previous_clear_seconds : F
  pub previous_team_hp : F

pub record View (F : Type 0) : Type 0 where
  pub index : ℕ
  pub seed : ℕ
  pub state : StageState
  pub monsters_remaining : ℕ
  pub stage_limit : ℕ
  pub difficulty_score : F
  pub difficulty_adjustment : F
  pub previous_clear_seconds : F
  pub previous_team_hp : F

module _ {F : Type 0} ⦃f : Float64 F⦄ where
  open f use {lit, lt, le}

  -- `p.X < min.X || p.X > max.X || p.Y < min.Y || p.Y > max.Y`
  abbrev pub outside : Vec2 F → Vec2 F → Vec2 F → Bool
  outside lo hi p = lt p.x lo.x || lt hi.x p.x || lt p.y lo.y || lt hi.y p.y

  -- The test of one spawn in `Plan.Validate`.
  abbrev pub bad_spawn : Vec2 F → Vec2 F → Spawn F → Bool
  bad_spawn lo hi m =
      not (finite m.position)
      || not (valid_stats m.stats)
      || outside lo hi m.position
      || odd_f m.radius
      || le m.radius zero_f
      || lt (lit 10 0) m.radius
      || odd_f m.attack_range
      || lt m.attack_range zero_f
      || lt (lit 100 0) m.attack_range

  abbrev pub bad_spawns : Vec2 F → Vec2 F → List (Spawn F) → Bool
  bad_spawns lo hi [] = false
  bad_spawns lo hi (m ∷ ms) = bad_spawn lo hi m || bad_spawns lo hi ms

  -- `Plan.Validate`: whether the plan is accepted.
  unfoldable pub valid_plan : Plan F → Vec2 F → Vec2 F → ℕ → Bool
  valid_plan p lo hi max_monsters =
      not (
        p.index == 0
        || length p.monsters == 0
        || ltb max_monsters (length p.monsters)
        || odd_f p.difficulty_score
        || le p.difficulty_score zero_f)
      && not (bad_spawns lo hi p.monsters)

  -- `View{}`
  abbrev pub empty_view : View F
  empty_view = record {
    index = 0;
    seed = 0;
    state = waiting;
    monsters_remaining = 0;
    stage_limit = 0;
    difficulty_score = zero_f;
    difficulty_adjustment = zero_f;
    previous_clear_seconds = zero_f;
    previous_team_hp = zero_f;
  }

  -- `Plan{}`
  abbrev pub empty_plan : Plan F
  empty_plan = record {
    index = 0;
    seed = 0;
    difficulty_score = zero_f;
    monsters = [];
    difficulty_adjustment = zero_f;
    previous_clear_seconds = zero_f;
    previous_team_hp = zero_f;
  }
