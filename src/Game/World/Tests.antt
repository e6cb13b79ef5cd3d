-- ===== src/Game/World/Tests.antt =====
-- A short run: a player joins, a stage with one monster starts, and a shot is fired.
use the_return_of_the_odysse.Base.{
  ℕ, ◌≡◌, ◌⊎◌, refl, true, false, Option, none, some, List, [], ◌∷◌,
}
use the_return_of_the_odysse.Base.Floats.{thousandths}
use the_return_of_the_odysse.Base.Maps.{lookup}
use the_return_of_the_odysse.Game.Entity.{finite, valid_stats}
use the_return_of_the_odysse.Game.Stage.{Plan, playing, valid_plan}
use the_return_of_the_odysse.Game.Config.{Config, default_config}
use the_return_of_the_odysse.Game.World.{
  World, Member, Input, empty_world, empty_catalog_value, is_set, is_stage, new_member,
  world_add_player, world_apply_input, valid_input,
}
use the_return_of_the_odysse.Base.Sorting.{sort}
use the_return_of_the_odysse.Game.Loadout.{magazine_capacity}
use the_return_of_the_odysse.Game.Systems.{
  normalize_direction, unit_direction, move, segment_circle,
}
use the_return_of_the_odysse.Game.Arena.{
  build_cover_blocks, clear_spawn_from_cover, clear_spots, move_with_cover, first_cover_hit,
}
use the_return_of_the_odysse.Game.Arena.Route.{route_around_cover}
use the_return_of_the_odysse.Game.World.Stages.{emit, spawn_all, readied, open_stage, start_stage}
use the_return_of_the_odysse.Game.World.Performance.{team_power}
use the_return_of_the_odysse.Game.World.Pickups.{
  spawn_stage_pickups, used_up, take_pickup, collect_for, collect_all, collect_pickups,
}
use the_return_of_the_odysse.Game.World.Foes.{shoot_all, move_all}
use the_return_of_the_odysse.Game.World.Shots.{fly_all}
use the_return_of_the_odysse.Game.World.Damage.{apply_all, apply_damage, destroy_projectile}
use the_return_of_the_odysse.Game.World.Rewards.{step_reward}
use the_return_of_the_odysse.Game.World.Ticks.{
  processed, heeded, walked, step_member, step_players, step,
}
use the_return_of_the_odysse.Game.World.Calls.{Call, adds, hears, ticks, starts, call, calls}
use the_return_of_the_odysse.Game.World.Combat.{step_combat, bury, judge, fight}
use the_return_of_the_odysse.Game.World.Core.{core}
use the_return_of_the_odysse.Game.World.Magazines.{Sound, calls-Sound}
use the_return_of_the_odysse.Game.World.Transitions.{Edge}
use the_return_of_the_odysse.Game.World.Transitions.Edges.{call-Edge}
use the_return_of_the_odysse.Game.World.Transitions.Endings.{Ended, step_combat-Ended}

abbrev open_field : Config ℕ
open_field = record default_config { cover_enabled = false }

abbrev one_monster : Plan ℕ
one_monster = record {
  index = 1;
  seed = 0;
  difficulty_score = 1_000;
  monsters =
      record {
        position = record { x = 15_000; y = 15_000 };
        stats = record {
          attack = 5_000;
          defense = 0;
          max_health = 30_000;
          move_speed = 1_700;
          attack_cooldown_ticks = 45;
        };
        radius = 400;
        attack_range = 1_000;
      }
      ∷ [];
  difficulty_adjustment = 0;
  previous_clear_seconds = 0;
  previous_team_hp = 0;
}

abbrev shooting : Input ℕ
shooting = record {
  seq = 1;
  direction = record { x = 0; y = 0 };
  aim = record { x = 1_000; y = 1_000 };
  shoot = true;
  use_potion = false;
  reload = false;
}

abbrev run : List (Call ℕ)
run = adds 7 ∷ starts one_monster ∷ hears 7 shooting 100 ∷ ticks 200 ∷ []

abbrev or_start : Option (World ℕ) → World ℕ
or_start none = empty_world open_field empty_catalog_value
or_start (some w) = w

abbrev reached : World ℕ
reached = or_start (calls run (empty_world open_field empty_catalog_value))

abbrev or_new : Option (Member ℕ) → Member ℕ
or_new none = new_member 7 open_field
or_new (some m) = m

abbrev shooter : Member ℕ
shooter = or_new (lookup 7 reached.players)

runs_through : is_set (calls run (empty_world open_field empty_catalog_value)) ≡ true
unfolding sort finite valid_stats valid_plan magazine_capacity normalize_direction unit_direction
    move segment_circle build_cover_blocks clear_spawn_from_cover clear_spots move_with_cover
    first_cover_hit route_around_cover world_add_player world_apply_input valid_input emit spawn_all
    readied open_stage start_stage team_power spawn_stage_pickups used_up take_pickup collect_for
    collect_all collect_pickups shoot_all move_all fly_all apply_all destroy_projectile bury judge
    fight step_combat step_reward processed heeded walked step_member step_players step apply_damage
runs_through = refl

or_start-some : (o : Option (World ℕ)) → is_set o ≡ true → o ≡ some (or_start o)
or_start-some none h = cc
or_start-some (some w) h = refl

or_new-some : (o : Option (Member ℕ)) → is_set o ≡ true → o ≡ some (or_new o)
or_new-some none h = cc
or_new-some (some m) h = refl

is_run : calls run (empty_world open_field empty_catalog_value) ≡ some reached
is_run = or_start-some (calls run (empty_world open_field empty_catalog_value)) runs_through

-- The magazine is one short of its 12 rounds.
has_shot : (shooter.player).ammo ≡ 11
unfolding sort finite valid_stats valid_plan magazine_capacity normalize_direction unit_direction
    move segment_circle build_cover_blocks clear_spawn_from_cover clear_spots move_with_cover
    first_cover_hit route_around_cover world_add_player world_apply_input valid_input emit spawn_all
    readied open_stage start_stage team_power spawn_stage_pickups used_up take_pickup collect_for
    collect_all collect_pickups shoot_all move_all fly_all apply_all destroy_projectile bury judge
    fight step_combat step_reward processed heeded walked step_member step_players step apply_damage
has_shot = refl

still_there : is_set (lookup 7 reached.players) ≡ true
unfolding sort finite valid_stats valid_plan magazine_capacity normalize_direction unit_direction
    move segment_circle build_cover_blocks clear_spawn_from_cover clear_spots move_with_cover
    first_cover_hit route_around_cover world_add_player world_apply_input valid_input emit spawn_all
    readied open_stage start_stage team_power spawn_stage_pickups used_up take_pickup collect_for
    collect_all collect_pickups shoot_all move_all fly_all apply_all destroy_projectile bury judge
    fight step_combat step_reward processed heeded walked step_member step_players step apply_damage
still_there = refl

calls-Sound_example : Sound shooter
calls-Sound_example =
    calls-Sound open_field empty_catalog_value run reached 7 shooter is_run
      (or_new-some (lookup 7 reached.players) still_there)

-- The next tick, and its combat alone.
abbrev next_world : World ℕ
next_world = or_start (call (ticks 233) reached)

abbrev fought_world : World ℕ
fought_world = or_start (step_combat reached)

ticks_on : is_set (call (ticks 233) reached) ≡ true
unfolding sort finite valid_stats valid_plan magazine_capacity normalize_direction unit_direction
    move segment_circle build_cover_blocks clear_spawn_from_cover clear_spots move_with_cover
    first_cover_hit route_around_cover world_add_player world_apply_input valid_input emit spawn_all
    readied open_stage start_stage team_power spawn_stage_pickups used_up take_pickup collect_for
    collect_all collect_pickups shoot_all move_all fly_all apply_all destroy_projectile bury judge
    fight step_combat step_reward processed heeded walked step_member step_players step apply_damage
ticks_on = refl

fights_on : is_set (step_combat reached) ≡ true
unfolding sort finite valid_stats valid_plan magazine_capacity normalize_direction unit_direction
    move segment_circle build_cover_blocks clear_spawn_from_cover clear_spots move_with_cover
    first_cover_hit route_around_cover world_add_player world_apply_input valid_input emit spawn_all
    readied open_stage start_stage team_power spawn_stage_pickups used_up take_pickup collect_for
    collect_all collect_pickups shoot_all move_all fly_all apply_all destroy_projectile bury judge
    fight step_combat step_reward processed heeded walked step_member step_players step apply_damage
fights_on = refl

call-Edge_example : Edge {F = ℕ} (ticks 233) (reached.stage).state (next_world.stage).state
call-Edge_example =
    call-Edge (ticks 233) reached next_world (or_start-some (call (ticks 233) reached) ticks_on)

step_combat-Ended_example :
    ((is_stage playing reached ≡ false) × (reached ≡ fought_world))
    ⊎ (((reached.stage).state ≡ playing) × Ended (core reached) fought_world)
step_combat-Ended_example =
    step_combat-Ended reached fought_world (or_start-some (step_combat reached) fights_on)
