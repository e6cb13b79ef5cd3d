-- ===== src/Game/Arena/Moves.antt =====
-- arena.go: appearing among the covers.
use the_return_of_the_odysse.Base.{
  ◌≡◌, refl, ◌⊎◌, inl, inr, true, false, not, ◌||◌, List, [], ◌∷◌, arith, Bool-cases,
}
use the_return_of_the_odysse.Base.Floats.{Float64}
use the_return_of_the_odysse.Game.Entity.{Vec2}
use the_return_of_the_odysse.Game.Stage.{outside}
use the_return_of_the_odysse.Game.Config.{Config}
use the_return_of_the_odysse.Game.Arena.{
  CoverBlock, point_in_block, blocked, best_spot, beside, clear_spots, clear_spawn_from_cover,
}

module _ {F : Type 0} ⦃f : Float64 F⦄ where
  open f use {infinity, sub, hypot, lt}

  -- The place is where it was asked for, or inside the map and in no cover.
  abbrev pub Clear : Config F → List (CoverBlock F) → F → Vec2 F → Vec2 F → Type 0
  Clear c covers r p q =
      (p ≡ q) ⊎ ((outside c.min_corner c.max_corner q ≡ false) × (blocked covers q r ≡ false))

  best_spot-Clear :
      (c : Config F) (covers : List (CoverBlock F)) (p from : Vec2 F) (r : F)
      (candidates : List (Vec2 F)) (best : Vec2 F × F)
      → Clear c covers r p best.0
      → Clear c covers r p (best_spot c covers from r candidates best).0
  unfolding best_spot
  best_spot-Clear c covers p from r [] best h = h
  best_spot-Clear c covers p from r (q ∷ qs) (spot, distance) h =
      let away = hypot (sub from.x q.x) (sub from.y q.y) in
      let bad =
        outside c.min_corner c.max_corner q || blocked covers q r || not (lt away distance) in
      elim (Bool-cases bad) [
        | inl e ↦ rw (e, best_spot) (best_spot-Clear c covers p from r qs (spot, distance) h)
        | inr e ↦
            rw (e, best_spot)
              (best_spot-Clear c covers p from r qs (q, away) (inr (ground arith, ground arith)))
      ]

  clear_spots-Clear :
      (c : Config F) (covers rest : List (CoverBlock F)) (p q : Vec2 F) (r : F)
      → Clear c covers r p q
      → Clear c covers r p (clear_spots c covers rest q r)
  unfolding clear_spots
  clear_spots-Clear c covers [] p q r h = h
  clear_spots-Clear c covers (cover ∷ rest) p q r h = elim (Bool-cases (point_in_block q cover r)) [
    | inl e ↦
        let spot = best_spot c covers q r (beside cover q r) (q, infinity) in
        rw (e, clear_spots)
          (clear_spots-Clear c covers rest p spot.0 r
            (best_spot-Clear c covers p q r (beside cover q r) (q, infinity) h))
    | inr e ↦ rw (e, clear_spots) (clear_spots-Clear c covers rest p q r h)
  ]

  clear_spots-free :
      (c : Config F) (covers rest : List (CoverBlock F)) (p : Vec2 F) (r : F)
      → blocked rest p r ≡ false
      → clear_spots c covers rest p r ≡ p
  unfolding clear_spots
  clear_spots-free c covers [] p r h = refl
  clear_spots-free c covers (cover ∷ rest) p r h =
      let e : point_in_block p cover r ≡ false = ground arith in
      rw (e, clear_spots) (clear_spots-free c covers rest p r (ground arith))

  -- A monster or pickup appears where it was asked for, if no cover is there. Otherwise it appears
  -- there all the same, or inside the map and in no cover.
  pub clear_spawn_from_cover-Clear :
      (c : Config F) (covers : List (CoverBlock F)) (p : Vec2 F) (r : F)
      → Clear c covers r p (clear_spawn_from_cover c covers p r)
        × ((blocked covers p r ≡ true) ⊎ (clear_spawn_from_cover c covers p r ≡ p))
  unfolding clear_spawn_from_cover
  clear_spawn_from_cover-Clear c covers p r = (
    clear_spots-Clear c covers covers p p r (inl refl),
    elim (Bool-cases (blocked covers p r)) [
      | inl e ↦ inl e
      | inr e ↦ inr (clear_spots-free c covers covers p r e)
    ],
  )
