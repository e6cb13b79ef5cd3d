-- ===== src/Game/World/Combat.antt =====
-- server/internal/game/combat.go: `stepCombat`, one tick of shots, monsters, projectiles and damage, and
-- how a stage ends. `none` is a panic.
use the_return_of_the_odysse.Base.{
  ℕ, true, false, Option, none, some, List, [], ◌∷◌, ◌==◌, if◌then◌else◌, length,
}
use the_return_of_the_odysse.Base.Floats.{Float64, zero_f}
use the_return_of_the_odysse.Base.Maps.{lookup, erase}
use the_return_of_the_odysse.Game.Entity.{origin}
use the_return_of_the_odysse.Game.Stage.{playing, stage_clear, failed}
use the_return_of_the_odysse.Game.World.{
  Foe, stage_cleared, team_defeated, World, ordered_ids, change_all, is_stage, with_stage,
}
use the_return_of_the_odysse.Game.World.Performance.{freeze_performance}
use the_return_of_the_odysse.Game.World.Stages.{emit, blank_event, living}
use the_return_of_the_odysse.Game.World.Damage.{destroy_projectile, apply_all}
use the_return_of_the_odysse.Game.World.Foes.{shoot_all, move_all}
use the_return_of_the_odysse.Game.World.Shots.{fly_all}

module _ {F : Type 0} ⦃f : Float64 F⦄ where
  open f use {same}

  -- The loop that deletes the monsters with no health left.
  unfoldable pub bury : List ℕ → World F → World F
  bury [] w = w
  bury (id ∷ ids) w = elim (lookup id w.monsters) [
    | none ↦ bury ids w
    | some e ↦
        bury ids (
          if same (e.monster).health zero_f then record w { monsters = erase id w.monsters } else w)
  ]

  -- The loop that destroys what still flies.
  unfoldable pub destroy_all : List ℕ → World F → World F
  unfolding destroy_projectile
  destroy_all [] w = w
  destroy_all (id ∷ ids) w = elim (lookup id w.projectiles) [
    | none ↦ destroy_all ids w
    | some p ↦ destroy_all ids (destroy_projectile p w)
  ]

  abbrev pub at_rest : Foe F → Foe F
  at_rest e = let m = e.monster in record e { monster = record m { velocity = origin } }

  -- What happens when the stage is over.
  unfoldable pub still : World F → World F
  unfolding destroy_all
  still w =
      destroy_all (ordered_ids w.projectiles)
        (record w { monsters = change_all at_rest w.monsters })

  -- `TeamDefeated`
  unfoldable pub lose_stage : World F → World F
  lose_stage w =
      let lost = blank_event team_defeated in
      emit (record lost { stage_index = (w.stage).index })
        (with_stage failed (record w { run_ended_at_tick = w.tick }))

  -- `StageCleared`
  unfoldable pub clear_stage : World F → World F
  clear_stage w =
      let cleared = blank_event stage_cleared in
      emit (record cleared { stage_index = (w.stage).index })
        (with_stage stage_clear (freeze_performance w))

  -- The end of `stepCombat`: a lost team comes before a cleared stage.
  unfoldable pub judge : World F → World F
  unfolding still lose_stage clear_stage
  judge w =
      if living w.players == 0
      then still (lose_stage w)
      else if length w.monsters == 0
      then still (clear_stage w)
      else w

  -- `w.stage.MonstersRemaining = len(w.monsters)`
  abbrev pub counted : World F → World F
  counted w =
      let v = w.stage in record w { stage = record v { monsters_remaining = length w.monsters } }

  -- `stepCombat` in a stage that is played.
  unfoldable pub fight : World F → Option (World F)
  unfolding bury judge
  fight w =
      let monster_ids = ordered_ids w.monsters in
      let player_ids = ordered_ids w.players in
      elim (move_all player_ids monster_ids [] [] (shoot_all player_ids w)) [
        | none ↦ none
        | some (acted, requests) ↦
            let (flown, struck) =
              fly_all monster_ids (ordered_ids acted.projectiles) requests acted in
            elim (apply_all struck flown) [
              | none ↦ none
              | some hit ↦ some (judge (counted (bury monster_ids hit)))
            ]
      ]

  -- `stepCombat`
  unfoldable pub step_combat : World F → Option (World F)
  unfolding fight
  step_combat w = elim (is_stage playing w) [ false ↦ some w | true ↦ fight w ]
