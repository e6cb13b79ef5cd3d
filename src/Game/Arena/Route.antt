-- ===== src/Game/Arena/Route.antt =====
-- arena.go: `routeAroundCover`, the shortest way over the corners of the covers. A slice of the search
-- is a list; `none` in `previous` is -1.
use the_return_of_the_odysse.Base.{
  ℕ, zero, suc, Bool, true, false, not, ◌&&◌, ◌||◌, Option, none, some, List, [], ◌∷◌, ◌++◌, map,
  ◌==◌, if◌then◌else◌, length, get_or,
}
use the_return_of_the_odysse.Base.Floats.{Float64, zero_f}
use the_return_of_the_odysse.Game.Entity.{Vec2, origin}
use the_return_of_the_odysse.Game.Stage.{outside}
use the_return_of_the_odysse.Game.Config.{Config}
use the_return_of_the_odysse.Game.Arena.{CoverBlock, blocked, first_cover_hit}

-- `xs[i] = value`
abbrev pub set_at : {A : Type 0} → List A → ℕ → A → List A
set_at [] i value = []
set_at (x ∷ xs) zero value = value ∷ xs
set_at (x ∷ xs) (suc i) value = x ∷ set_at xs i value

-- The indices of a slice from `i` on.
abbrev pub indices : {A : Type 0} → ℕ → List A → List ℕ
indices i [] = []
indices i (x ∷ xs) = i ∷ indices (suc i) xs

pub record Search (F : Type 0) : Type 0 where
  pub distance : List F
  pub previous : List (Option ℕ)
  pub visited : List Bool

-- From `waypoint` back to the node after the start: the loop over `previous`. `fuel` bounds its
-- rounds.
abbrev pub walk_back : ℕ → List (Option ℕ) → ℕ → Option ℕ
walk_back zero previous waypoint = none
walk_back (suc fuel) previous waypoint = elim (get_or previous waypoint none) [
  | none ↦ some waypoint
  | some zero ↦ some waypoint
  | some (suc at) ↦ walk_back fuel previous (suc at)
]

module _ {F : Type 0} ⦃f : Float64 F⦄ where
  open f use {lit, infinity, add, sub, hypot, lt}

  -- The padded corners of a block.
  abbrev pub corners : CoverBlock F → F → List (Vec2 F)
  corners b padding =
      record { x = sub (b.lowest).x padding; y = sub (b.lowest).y padding }
      ∷ record { x = sub (b.lowest).x padding; y = add (b.highest).y padding }
      ∷ record { x = add (b.highest).x padding; y = sub (b.lowest).y padding }
      ∷ record { x = add (b.highest).x padding; y = add (b.highest).y padding }
      ∷ []

  -- The corners inside the map and outside every cover.
  abbrev pub free_corners : Config F → List (CoverBlock F) → F → List (Vec2 F) → List (Vec2 F)
  free_corners c covers radius [] = []
  free_corners c covers radius (p ∷ ps) =
      let rest = free_corners c covers radius ps in
      if outside c.min_corner c.max_corner p || blocked covers p (add radius (lit 5 2))
      then rest
      else p ∷ rest

  abbrev pub all_corners : Config F → List (CoverBlock F) → F → List (CoverBlock F) → List (Vec2 F)
  all_corners c covers radius [] = []
  all_corners c covers radius (b ∷ bs) =
      free_corners c covers radius (corners b (add radius (lit 2 1)))
      ++ all_corners c covers radius bs

  -- The node that is not visited and nearest, and its distance.
  abbrev pub nearest : Search F → List ℕ → Option ℕ × F → Option ℕ × F
  nearest s [] best = best
  nearest s (i ∷ rest) (current, best) = nearest s rest (
      if not (get_or s.visited i false) && lt (get_or s.distance i infinity) best
      then (some i, get_or s.distance i infinity)
      else (current, best))

  -- The new way to `next` over `current`.
  abbrev pub relaxed : List (Vec2 F) → ℕ → ℕ → Search F → Search F
  relaxed points current next s =
      let from = get_or points current origin in
      let to = get_or points next origin in
      let candidate =
        add (get_or s.distance current infinity) (hypot (sub to.x from.x) (sub to.y from.y)) in
      if lt candidate (get_or s.distance next infinity)
      then record s {
        distance = set_at s.distance next candidate;
        previous = set_at s.previous next (some current);
      }
      else s

  -- The inner loop over `next`.
  abbrev pub relax : List (CoverBlock F) → F → List (Vec2 F) → ℕ → List ℕ → Search F → Search F
  relax covers radius points current [] s = s
  relax covers radius points current (next ∷ rest) s =
      let hit =
        first_cover_hit covers (get_or points current origin) (get_or points next origin) radius in
      relax covers radius points current rest (
        if next == current || get_or s.visited next false || hit.1
        then s
        else relaxed points current next s)

  -- The outer loop: a round for each node, until the goal is the nearest or no node is left.
  unfoldable pub explore : List (CoverBlock F) → F → List (Vec2 F) → List ℕ → Search F → Search F
  explore covers radius points [] s = s
  explore covers radius points (round_number ∷ rest) s =
      elim ((nearest s (indices 0 points) (none, infinity)).0) [
        | none ↦ s
        | some current ↦ elim (current == 1) [
          | true ↦ s
          | false ↦ explore covers radius points rest (
              relax covers radius points current (indices 0 points)
                (record s { visited = set_at s.visited current true }))
        ]
      ]

  -- The first distances: 0 for the start.
  abbrev pub start_search : List (Vec2 F) → Search F
  start_search points = record {
    distance = set_at (map (λ p. infinity) points) 0 zero_f;
    previous = map (λ p. none) points;
    visited = map (λ p. false) points;
  }

  -- The end of `routeAroundCover`: the first node of the way to the goal, or the goal itself.
  abbrev pub first_step : List (Vec2 F) → Search F → Vec2 F → Option (Vec2 F)
  first_step points s goal = elim (get_or s.previous 1 none) [
    | none ↦ some goal
    | some _ ↦ elim (walk_back (suc (length points)) s.previous 1) [
      | none ↦ none
      | some waypoint ↦ elim (get_or s.previous waypoint none) [
        | some zero ↦ some (get_or points waypoint origin)
        | _ ↦ some goal
      ]
    ]
  ]

  -- `routeAroundCover`; `none` would be a walk back that does not end.
  unfoldable pub route_around_cover :
      Config F → List (CoverBlock F) → Vec2 F → Vec2 F → F → Option (Vec2 F)
  unfolding explore
  route_around_cover c covers from goal radius =
      let points = from ∷ goal ∷ all_corners c covers radius covers in
      elim ((first_cover_hit covers from goal radius).1) [
        | false ↦ some goal
        | true ↦
            first_step points
              (explore covers radius points (indices 0 points) (start_search points)) goal
      ]
