-- ===== src/Game/Arena/Tests.antt =====
-- arena.go: a map of 20 by 20 with one wall.
use the_return_of_the_odysse.Base.{ℕ, ◌≡◌, ◌⊎◌, true, some, List, [], ◌∷◌}
use the_return_of_the_odysse.Base.Floats.{thousandths}
use the_return_of_the_odysse.Game.Entity.{Vec2}
use the_return_of_the_odysse.Game.Config.{Config, default_config}
use the_return_of_the_odysse.Game.Arena.{CoverBlock, blocked, clear_spawn_from_cover}
use the_return_of_the_odysse.Game.Arena.Route.{route_around_cover}
use the_return_of_the_odysse.Game.Arena.Moves.{Clear, clear_spawn_from_cover-Clear}
use the_return_of_the_odysse.Game.Arena.Termination.{route_around_cover-ends}

abbrev place : ℕ → ℕ → Vec2 ℕ
place x y = record { x = x; y = y }

abbrev field_config : Config ℕ
field_config = default_config

abbrev wall : List (CoverBlock ℕ)
wall = record { lowest = place 8_000 4_000; highest = place 9_000 16_000 } ∷ []

clear_spawn_from_cover-Clear_example :
    Clear field_config wall 400
      (place 8_500 5_000)
      (clear_spawn_from_cover field_config wall (place 8_500 5_000) 400)
    × ((blocked wall (place 8_500 5_000) 400 ≡ true)
        ⊎ (clear_spawn_from_cover field_config wall (place 8_500 5_000) 400 ≡ place 8_500 5_000))
clear_spawn_from_cover-Clear_example =
    clear_spawn_from_cover-Clear field_config wall (place 8_500 5_000) 400

route_around_cover-ends_example :
    (waypoint : Vec2 ℕ) × (route_around_cover field_config wall
        (place 4_000 10_000)
        (place 13_000 10_000)
        400
      ≡ some waypoint)
route_around_cover-ends_example =
    route_around_cover-ends field_config wall (place 4_000 10_000) (place 13_000 10_000) 400
