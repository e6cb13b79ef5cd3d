-- ===== src/Game/Encounter.antt =====
-- server/internal/game/encounter.go: the plan of the first stage. An error is `none`.
pub mod Places
mod Tests
use the_return_of_the_odysse.Base.{
  ℕ, zero, suc, ◌+◌, ◌*◌, ◌%◌, Bool, not, ◌||◌, Option, none, some, List, [], ◌∷◌, ◌++◌, map, ltb,
  ◌==◌, if◌then◌else◌, length, get_or,
}
use the_return_of_the_odysse.Base.Floats.{Float64, zero_f, one_f}
use the_return_of_the_odysse.Game.Random.{next}
use the_return_of_the_odysse.Game.Entity.{Vec2, CombatStats, origin}
use the_return_of_the_odysse.Game.Stage.{Spawn, Plan}
use the_return_of_the_odysse.Game.Config.{Config, valid_config, valid_stage}
use the_return_of_the_odysse.Game.World.Pickups.{map_point}

abbrev pub first_stage_monster_count : ℕ
first_stage_monster_count = 8

-- `fractions`, in hundredths.
abbrev pub fractions : List (ℕ × ℕ)
fractions =
    (15, 15) ∷ (50, 15) ∷ (85, 15) ∷ (85, 50) ∷ (85, 85) ∷ (50, 85) ∷ (15, 85) ∷ (15, 50) ∷ []

-- `start` and `step`
unfoldable pub draw_order : ℕ → ℕ × ℕ
unfolding next
draw_order seed =
    let (drawn, state) = next seed in
    let (drawn', state') = next state in
    (drawn % length fractions, if drawn' % 2 == 0 then 3 else 5)

-- The indices that the loop takes, from `i` on.
unfoldable pub visits : ℕ → ℕ → ℕ → ℕ → List ℕ
visits zero i start step = []
visits (suc n) i start step = (start + i * step) % length fractions ∷ visits n (suc i) start step

module _ {F : Type 0} ⦃f : Float64 F⦄ where
  open f use {lit, sub, mul, fmin, hypot, le}

  abbrev pub candidates : Config F → List (Vec2 F)
  candidates c = map (λ p. map_point c p.0 p.1) fractions

  -- Whether a place is far enough from the players' spawn.
  abbrev pub is_far : Config F → Vec2 F → Bool
  is_far c p =
      let width = sub (c.max_corner).x (c.min_corner).x in
      let height = sub (c.max_corner).y (c.min_corner).y in
      le (mul (fmin width height) (lit 20 2)) (hypot (sub p.x (c.spawn).x) (sub p.y (c.spawn).y))

  -- The loop over the candidates: those that are far, then those that are put off.
  unfoldable pub sort_out : Config F → List ℕ → List (Vec2 F) × List (Vec2 F)
  sort_out c [] = ([], [])
  sort_out c (i ∷ is) =
      let p = get_or (candidates c) i origin in
      let (ordered, deferred) = sort_out c is in
      if is_far c p then (p ∷ ordered, deferred) else (ordered, p ∷ deferred)

  unfoldable pub ordered_places : Config F → ℕ → List (Vec2 F)
  unfolding draw_order visits sort_out
  ordered_places c seed =
      let (start, step) = draw_order seed in
      let (ordered, deferred) = sort_out c (visits (length fractions) 0 start step) in
      ordered ++ deferred

  abbrev pub monster_stats : CombatStats F
  monster_stats = record {
    attack = lit 5 0;
    defense = zero_f;
    max_health = lit 30 0;
    move_speed = lit 17 1;
    attack_cooldown_ticks = 45;
  }

  abbrev pub first_spawn : Vec2 F → Spawn F
  first_spawn p = record {
    position = p;
    stats = monster_stats;
    radius = lit 4 1;
    attack_range = lit 1 0;
  }

  abbrev pub first_plan : Config F → ℕ → Plan F
  first_plan c seed = record {
    index = 1;
    seed = seed;
    difficulty_score = one_f;
    monsters = map first_spawn (ordered_places c seed);
    difficulty_adjustment = zero_f;
    previous_clear_seconds = zero_f;
    previous_team_hp = zero_f;
  }

  -- `NewFirstStagePlan`
  unfoldable pub new_first_stage_plan : Config F → ℕ → Option (Plan F)
  unfolding ordered_places
  new_first_stage_plan c seed =
      if not (valid_config c)
        || ltb (c.combat).max_monsters first_stage_monster_count
        || not (valid_stage (first_plan c seed) c)
      then none
      else some (first_plan c seed)
