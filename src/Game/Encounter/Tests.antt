-- ===== src/Game/Encounter/Tests.antt =====
-- encounter.go on the map of the default configuration.
use mathlib.Core.List.{Perm}
use the_return_of_the_odysse.Base.{ℕ, ◌≤◌, ◌≡◌, refl, true, Option, none, some, map}
use the_return_of_the_odysse.Base.Floats.{thousandths}
use the_return_of_the_odysse.Game.Entity.{finite, valid_stats}
use the_return_of_the_odysse.Game.Random.{next}
use the_return_of_the_odysse.Game.Stage.{Spawn, Plan, valid_plan}
use the_return_of_the_odysse.Game.Config.{default_config, valid_combat, valid_config, valid_stage}
use the_return_of_the_odysse.Game.World.{is_set}
use the_return_of_the_odysse.Game.Encounter.{
  draw_order, visits, candidates, sort_out, ordered_places, first_plan, new_first_stage_plan,
}
use the_return_of_the_odysse.Game.Encounter.Places.{first_stage_places}

abbrev or_first : Option (Plan ℕ) → Plan ℕ
or_first none = first_plan default_config 0
or_first (some p) = p

or_first-some : (o : Option (Plan ℕ)) → is_set o ≡ true → o ≡ some (or_first o)
or_first-some none h = cc
or_first-some (some p) h = refl

abbrev opening : Plan ℕ
opening = or_first (new_first_stage_plan default_config 77)

opens : is_set (new_first_stage_plan {F = ℕ} default_config 77) ≡ true
unfolding new_first_stage_plan ordered_places sort_out visits draw_order next valid_stats finite
    valid_plan valid_config valid_combat
opens = refl

first_stage_places_example :
    (opening.index ≡ 1)
    × (opening.seed ≡ 77)
    × (valid_stage opening default_config ≡ true)
    × (8 ≤ 64)
    × Perm (map (λ (m : Spawn ℕ). m.position) opening.monsters) (candidates {F = ℕ} default_config)
first_stage_places_example =
    first_stage_places default_config 77 opening
      (or_first-some (new_first_stage_plan default_config 77) opens)
