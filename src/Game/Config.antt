-- ===== src/Game/Config.antt =====
-- The configuration of a world: `Config` of server/internal/game/world.go and `CombatConfig` of
-- server/internal/game/combat.go. Times are nanoseconds. A Go `int` that is validated to be positive
-- is a number.
use the_return_of_the_odysse.Base.{ℕ, Bool, true, not, ◌&&◌, ◌||◌, ltb, leb}
use the_return_of_the_odysse.Base.Floats.{Float64, zero_f, odd_f}
use the_return_of_the_odysse.Game.Entity.{Vec2, CombatStats, finite, valid_stats}
use the_return_of_the_odysse.Game.Stage.{Plan, outside, valid_plan}

pub record CombatConfig (F : Type 0) : Type 0 where
  pub player_stats : CombatStats F
  pub projectile_speed : F
  pub projectile_radius : F
  pub projectile_lifetime_ticks : ℕ
  pub max_monsters : ℕ
  pub max_projectiles : ℕ

pub record Config (F : Type 0) : Type 0 where
  pub capacity : ℕ
  pub min_corner : Vec2 F
  pub max_corner : Vec2 F
  pub spawn : Vec2 F
  pub move_speed : F
  pub input_timeout : ℕ
  pub cover_enabled : Bool
  pub stage_limit : ℕ
  pub combat : CombatConfig F

abbrev pub tick_rate : ℕ
tick_rate = 30

abbrev pub ai_decision_every : ℕ
ai_decision_every = 3

module _ {F : Type 0} ⦃f : Float64 F⦄ where
  open f use {lit, lt, le, abs, div, of_nat}

  abbrev pub step_seconds : F
  step_seconds = div (lit 1 0) (of_nat tick_rate)

  abbrev pub default_combat_config : CombatConfig F
  default_combat_config = record {
    player_stats = record {
      attack = lit 20 0;
      defense = zero_f;
      max_health = lit 100 0;
      move_speed = lit 5 0;
      attack_cooldown_ticks = 6;
    };
    projectile_speed = lit 20 0;
    projectile_radius = lit 1 1;
    projectile_lifetime_ticks = 60;
    max_monsters = 64;
    max_projectiles = 256;
  }

  abbrev pub default_config : Config F
  default_config = record {
    capacity = 2;
    min_corner = record { x = zero_f; y = zero_f };
    max_corner = record { x = lit 20 0; y = lit 20 0 };
    spawn = record { x = lit 10 0; y = lit 10 0 };
    move_speed = lit 5 0;
    input_timeout = 200_000_000;
    cover_enabled = true;
    stage_limit = 12;
    combat = default_combat_config;
  }

  -- `!IsNaN(v) && !IsInf(v) && v > 0 && v <= most`
  abbrev pub within : F → F → Bool
  within most v = not (odd_f v) && lt zero_f v && le v most

  -- `CombatConfig.valid`
  unfoldable pub valid_combat : CombatConfig F → Bool
  valid_combat c =
      valid_stats c.player_stats
      && within (lit 10_000 0) c.projectile_speed
      && within (lit 10 0) c.projectile_radius
      && ltb 0 c.projectile_lifetime_ticks
      && leb c.projectile_lifetime_ticks 18_000
      && ltb 0 c.max_monsters
      && leb c.max_monsters 128
      && ltb 0 c.max_projectiles
      && leb c.max_projectiles 1024

  abbrev pub large : F → Bool
  large v = lt (lit 1_000_000 0) (abs v)

  -- `Config.Validate`: whether it is accepted.
  unfoldable pub valid_config : Config F → Bool
  valid_config c = not (
      ltb c.capacity 1
      || not (finite c.min_corner)
      || not (finite c.max_corner)
      || not (finite c.spawn)
      || le (c.max_corner).x (c.min_corner).x
      || le (c.max_corner).y (c.min_corner).y
      || large (c.min_corner).x
      || large (c.min_corner).y
      || large (c.max_corner).x
      || large (c.max_corner).y
      || outside c.min_corner c.max_corner c.spawn
      || odd_f c.move_speed
      || le c.move_speed zero_f
      || lt (lit 1_000_000 0) c.move_speed
      || leb c.input_timeout 0
      || not (valid_combat c.combat))

  -- `ValidateStage`
  abbrev pub valid_stage : Plan F → Config F → Bool
  valid_stage p c = valid_plan p c.min_corner c.max_corner (c.combat).max_monsters
