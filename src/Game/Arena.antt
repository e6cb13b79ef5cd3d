-- ===== src/Game/Arena.antt =====
-- server/internal/game/arena.go: the cover blocks of a stage, and movement and sight around them. The
-- methods take the world's configuration and its covers, the only parts they read.
pub mod Route
pub mod Moves
pub mod Slices
pub mod Termination
mod Tests
use Prim.Native.Nat.{bit_xor}
use the_return_of_the_odysse.Base.{
  ℕ, zero, suc, ◌+◌, ◌-◌, ◌*◌, ◌/◌, ◌%◌, Bool, true, false, not, ◌&&◌, ◌||◌, List, [], ◌∷◌, ◌==◌,
  if◌then◌else◌, get_or,
}
use the_return_of_the_odysse.Base.Words.{u64}
use the_return_of_the_odysse.Base.Floats.{Float64, zero_f, one_f}
use the_return_of_the_odysse.Game.Entity.{Vec2}
use the_return_of_the_odysse.Game.Stage.{outside}
use the_return_of_the_odysse.Game.Config.{Config}
use the_return_of_the_odysse.Game.Systems.{clamp}

pub record CoverBlock (F : Type 0) : Type 0 where
  pub lowest : Vec2 F
  pub highest : Vec2 F

pub record NormalizedBlock (F : Type 0) : Type 0 where
  pub min_x : F
  pub min_y : F
  pub max_x : F
  pub max_y : F

module _ {F : Type 0} ⦃f : Float64 F⦄ where
  open f use {lit, infinity, add, sub, mul, div, fmin, fmax, hypot, lt, same, is_inf}

  -- A block in hundredths of the map.
  abbrev pub cell : ℕ → ℕ → ℕ → ℕ → NormalizedBlock F
  cell a b c d = record { min_x = lit a 2; min_y = lit b 2; max_x = lit c 2; max_y = lit d 2 }

  abbrev staggered_gates : List (NormalizedBlock F)
  staggered_gates =
      cell 23 15 28 42
      ∷ cell 23 58 28 85
      ∷ cell 72 15 77 44
      ∷ cell 72 60 77 85
      ∷ cell 39 27 61 32
      ∷ cell 39 68 61 73
      ∷ []

  abbrev broken_ring : List (NormalizedBlock F)
  broken_ring =
      cell 27 27 44 31
      ∷ cell 56 27 73 31
      ∷ cell 27 69 44 73
      ∷ cell 56 69 73 73
      ∷ cell 27 34 31 46
      ∷ cell 27 54 31 66
      ∷ cell 69 34 73 46
      ∷ cell 69 54 73 66
      ∷ []

  abbrev double_corridor : List (NormalizedBlock F)
  double_corridor =
      cell 10 30 42 35
      ∷ cell 58 30 90 35
      ∷ cell 18 65 46 70
      ∷ cell 54 65 82 70
      ∷ cell 18 43 23 57
      ∷ cell 77 43 82 57
      ∷ []

  abbrev spiral_relay : List (NormalizedBlock F)
  spiral_relay =
      cell 22 21 70 26
      ∷ cell 70 21 75 59
      ∷ cell 39 59 75 64
      ∷ cell 34 40 39 64
      ∷ cell 34 35 58 40
      ∷ cell 58 35 63 50
      ∷ []

  abbrev corner_forts : List (NormalizedBlock F)
  corner_forts =
      cell 14 20 35 25
      ∷ cell 14 20 19 40
      ∷ cell 65 20 86 25
      ∷ cell 81 20 86 40
      ∷ cell 14 75 35 80
      ∷ cell 14 60 19 80
      ∷ cell 65 75 86 80
      ∷ cell 81 60 86 80
      ∷ []

  abbrev staggered_gallery : List (NormalizedBlock F)
  staggered_gallery =
      cell 10 19 34 24
      ∷ cell 29 19 34 39
      ∷ cell 38 38 62 43
      ∷ cell 38 38 43 58
      ∷ cell 66 61 90 66
      ∷ cell 66 61 71 81
      ∷ []

  -- The `switch` of `buildCoverBlocks`.
  abbrev pub authored : ℕ → List (NormalizedBlock F)
  authored variant =
      get_or
        (staggered_gates ∷ broken_ring ∷ double_corridor ∷ spiral_relay ∷ corner_forts
          ∷ staggered_gallery ∷ [])
        variant []

  abbrev pub mirror : NormalizedBlock F → NormalizedBlock F
  mirror b = record {
    min_x = sub one_f b.max_x;
    min_y = b.min_y;
    max_x = sub one_f b.min_x;
    max_y = b.max_y;
  }

  -- `for range rotation`
  abbrev pub rotated : ℕ → NormalizedBlock F → NormalizedBlock F
  rotated zero b = b
  rotated (suc n) b = rotated n (record {
    min_x = sub one_f b.max_y;
    min_y = b.min_x;
    max_x = sub one_f b.min_y;
    max_y = b.max_x;
  })

  -- `pointInBlock`
  abbrev pub point_in_block : Vec2 F → CoverBlock F → F → Bool
  point_in_block p b radius =
      lt (sub (b.lowest).x radius) p.x
      && lt p.x (add (b.highest).x radius)
      && lt (sub (b.lowest).y radius) p.y
      && lt p.y (add (b.highest).y radius)

  -- The block in the world's coordinates.
  abbrev pub placed : Config F → NormalizedBlock F → CoverBlock F
  placed c b =
      let width = sub (c.max_corner).x (c.min_corner).x in
      let height = sub (c.max_corner).y (c.min_corner).y in
      record {
        lowest = record {
          x = add (c.min_corner).x (mul width b.min_x);
          y = add (c.min_corner).y (mul height b.min_y);
        };
        highest = record {
          x = add (c.min_corner).x (mul width b.max_x);
          y = add (c.min_corner).y (mul height b.max_y);
        };
      }

  -- The loop over the authored blocks: those that touch the spawn point are left out.
  pub place_blocks : Config F → Bool → ℕ → List (NormalizedBlock F) → List (CoverBlock F)
  place_blocks c mirrored rotation [] = []
  place_blocks c mirrored rotation (b ∷ bs) =
      let block = placed c (rotated rotation (if mirrored then mirror b else b)) in
      let rest = place_blocks c mirrored rotation bs in
      if point_in_block c.spawn block (lit 5 1) then rest else block ∷ rest

  -- `buildCoverBlocks`
  unfoldable pub build_cover_blocks : Config F → ℕ → ℕ → List (CoverBlock F)
  unfolding place_blocks
  build_cover_blocks c stage_index seed =
      let variant = bit_xor seed (u64 (stage_index * 0x9e37_79b9_7f4a_7c15)) in
      if not c.cover_enabled || stage_index == 0
      then []
      else place_blocks c (not ((variant / 4) % 2 == 0)) (variant % 4)
          (authored ((stage_index - 1) % 6))

  -- Whether one of the covers has the point.
  abbrev pub blocked : List (CoverBlock F) → Vec2 F → F → Bool
  blocked [] p radius = false
  blocked (cover ∷ rest) p radius = point_in_block p cover radius || blocked rest p radius

  -- One axis of `moveWithCover`: the candidate, unless it is blocked.
  abbrev pub unless_blocked : List (CoverBlock F) → F → Vec2 F → Vec2 F → Vec2 F
  unless_blocked covers radius candidate at =
      if blocked covers candidate radius then at else candidate

  -- `moveWithCover`
  unfoldable pub move_with_cover : Config F → List (CoverBlock F) → Vec2 F → Vec2 F → F → Vec2 F
  move_with_cover c covers from delta radius =
      let along =
        unless_blocked covers radius
          (record from { x = clamp (c.min_corner).x (c.max_corner).x (add from.x delta.x) }) from in
      unless_blocked covers radius
        (record along { y = clamp (c.min_corner).y (c.max_corner).y (add along.y delta.y) }) along

  -- The loop of `clearSpawnFromCover` over the candidates, with the position and its distance.
  unfoldable pub best_spot :
      Config F → List (CoverBlock F) → Vec2 F → F → List (Vec2 F) → Vec2 F × F → Vec2 F × F
  best_spot c covers from radius [] best = best
  best_spot c covers from radius (candidate ∷ rest) (spot, distance) =
      let away = hypot (sub from.x candidate.x) (sub from.y candidate.y) in
      best_spot c covers from radius rest (
        if outside c.min_corner c.max_corner candidate
          || blocked covers candidate radius
          || not (lt away distance)
        then (spot, distance)
        else (candidate, away))

  -- The four places beside a cover.
  abbrev pub beside : CoverBlock F → Vec2 F → F → List (Vec2 F)
  beside cover from radius =
      record { x = sub (sub (cover.lowest).x radius) (lit 2 2); y = from.y }
      ∷ record { x = add (add (cover.highest).x radius) (lit 2 2); y = from.y }
      ∷ record { x = from.x; y = sub (sub (cover.lowest).y radius) (lit 2 2) }
      ∷ record { x = from.x; y = add (add (cover.highest).y radius) (lit 2 2) }
      ∷ []

  -- The loop of `clearSpawnFromCover` over the covers.
  unfoldable pub clear_spots :
      Config F → List (CoverBlock F) → List (CoverBlock F) → Vec2 F → F → Vec2 F
  unfolding best_spot
  clear_spots c covers [] p radius = p
  clear_spots c covers (cover ∷ rest) p radius =
      let moved = best_spot c covers p radius (beside cover p radius) (p, infinity) in
      clear_spots c covers rest (if point_in_block p cover radius then moved.0 else p) radius

  -- `clearSpawnFromCover`
  unfoldable pub clear_spawn_from_cover : Config F → List (CoverBlock F) → Vec2 F → F → Vec2 F
  unfolding clear_spots
  clear_spawn_from_cover c covers p radius = clear_spots c covers covers p radius

  -- One axis of `segmentBlock`: the new interval, or none if the segment misses the block.
  abbrev pub clip_axis : F → F → F → F → F × F → (F × F) × Bool
  clip_axis start length low high (enter, leave) =
      let a = div (sub low start) length in
      let b = div (sub high start) length in
      let near = if lt b a then b else a in
      let far = if lt b a then a else b in
      let enter' = fmax enter near in
      let leave' = fmin leave far in
      if same length zero_f
      then ((enter, leave), not (lt start low || lt high start))
      else ((enter', leave'), not (lt leave' enter'))

  -- `segmentBlock`
  unfoldable pub segment_block : Vec2 F → Vec2 F → CoverBlock F → F → F × Bool
  segment_block from to block radius =
      let (on_x, hits_x) =
        clip_axis from.x (sub to.x from.x) (sub (block.lowest).x radius)
          (add (block.highest).x radius) (zero_f, one_f) in
      let (on_y, hits_y) =
        clip_axis from.y (sub to.y from.y) (sub (block.lowest).y radius)
          (add (block.highest).y radius) on_x in
      if hits_x && hits_y then (on_y.0, true) else (zero_f, false)

  -- The loop of `firstCoverHit`.
  pub nearest_hit : List (CoverBlock F) → Vec2 F → Vec2 F → F → F → F
  nearest_hit [] from to radius first = first
  nearest_hit (cover ∷ rest) from to radius first =
      let (hit, hits) = segment_block from to cover radius in
      nearest_hit rest from to radius (if hits && lt hit first then hit else first)

  -- `firstCoverHit`: the fraction, and whether a cover is hit (`!math.IsInf(first, 1)`).
  unfoldable pub first_cover_hit : List (CoverBlock F) → Vec2 F → Vec2 F → F → F × Bool
  unfolding nearest_hit
  first_cover_hit covers from to radius =
      let first = nearest_hit covers from to radius infinity in
      (first, not (is_inf first && lt zero_f first))
