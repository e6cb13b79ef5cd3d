-- ===== src/Game/World/Shots.antt =====
-- server/internal/game/combat.go: the flight of the projectiles in `stepCombat`.
use the_return_of_the_odysse.Base.{
  ℕ, true, false, not, ◌&&◌, ◌||◌, none, some, List, [], ◌∷◌, ◌++◌, leb, ◌==◌, if◌then◌else◌,
}
use the_return_of_the_odysse.Base.Floats.{Float64, one_f}
use the_return_of_the_odysse.Base.Maps.{lookup, insert}
use the_return_of_the_odysse.Game.Entity.{Vec2, Projectile, origin}
use the_return_of_the_odysse.Game.Config.{step_seconds}
use the_return_of_the_odysse.Game.Systems.{DamageRequest, segment_circle}
use the_return_of_the_odysse.Game.Arena.{first_cover_hit}
use the_return_of_the_odysse.Game.World.{Foe, World}
use the_return_of_the_odysse.Game.World.Damage.{destroy_projectile}

module _ {F : Type 0} ⦃f : Float64 F⦄ where
  open f use {infinity, add, sub, mul, div, fmin, lt}

  -- The cut of the segment at the map's edge, on one axis.
  abbrev pub cut_axis : F → F → F → F → F → F
  cut_axis start stop low high fraction =
      let at_low =
        if lt stop low then fmin fraction (div (sub low start) (sub stop start)) else fraction in
      if lt high stop then fmin at_low (div (sub high start) (sub stop start)) else at_low

  -- The point at the fraction of the way.
  abbrev pub along : Vec2 F → Vec2 F → F → Vec2 F
  along from to t = record {
    x = add from.x (mul (sub to.x from.x) t);
    y = add from.y (mul (sub to.y from.y) t);
  }

  -- The loop over the monsters: the first that the projectile meets, with the fraction.
  abbrev pub first_target : Projectile F → Vec2 F → F → List (ℕ × Foe F) → List ℕ → ℕ × F → ℕ × F
  first_target p stop fraction monsters [] best = best
  first_target p stop fraction monsters (id ∷ ids) best =
      let next : ℕ × F = elim (lookup id monsters) [
        | none ↦ best
        | some e ↦
            let centre = along e.previous (e.monster).position fraction in
            let contact =
              segment_circle
                (record {
                  x = sub (p.position).x (e.previous).x;
                  y = sub (p.position).y (e.previous).y;
                })
                (record { x = sub stop.x centre.x; y = sub stop.y centre.y }) origin
                (add p.radius (e.monster).radius) in
            if contact.1 && lt contact.0 best.1 then (id, contact.0) else best
      ] in
      first_target p stop fraction monsters ids next

  -- The request of a projectile that hits.
  abbrev pub hit_request : Projectile F → ℕ → DamageRequest F
  hit_request p target = record {
    source_id = p.owner_id;
    target_id = target;
    attack = p.attack;
    target_player = false;
  }

  -- One projectile that has not expired.
  abbrev pub fly_on : ℕ → Projectile F → List ℕ → World F → World F × List (DamageRequest F)
  fly_on id p monster_ids w =
      let c = w.config in
      let goal : Vec2 F = record {
        x = add (p.position).x (mul (p.velocity).x step_seconds);
        y = add (p.position).y (mul (p.velocity).y step_seconds);
      } in
      let fraction =
        cut_axis (p.position).y goal.y (c.min_corner).y (c.max_corner).y
          (cut_axis (p.position).x goal.x (c.min_corner).x (c.max_corner).x one_f) in
      let stop = along p.position goal fraction in
      let (cover_hit, hits_cover) = first_cover_hit w.covers p.position stop p.radius in
      let (target, closest) = first_target p stop fraction w.monsters monster_ids (0, infinity) in
      if not (target == 0) && (not hits_cover || lt closest cover_hit)
      then (
        destroy_projectile (record p { position = along p.position stop closest }) w,
        hit_request p target ∷ [],
      )
      else if hits_cover
      then (destroy_projectile (record p { position = along p.position stop cover_hit }) w, [])
      else if lt fraction one_f
      then (destroy_projectile (record p { position = stop }) w, [])
      else (record w { projectiles = insert id (record p { position = stop }) w.projectiles }, [])

  -- The loop over the projectiles, with the requests so far.
  unfoldable pub fly_all :
      List ℕ → List ℕ → List (DamageRequest F) → World F → World F × List (DamageRequest F)
  unfolding destroy_projectile
  fly_all monster_ids [] requests w = (w, requests)
  fly_all monster_ids (id ∷ ids) requests w = elim (lookup id w.projectiles) [
    | none ↦ fly_all monster_ids ids requests w
    | some p ↦
        let flown = fly_on id p monster_ids w in
        elim (leb p.expires_at_tick w.tick) [
          | true ↦ fly_all monster_ids ids requests (destroy_projectile p w)
          | false ↦ fly_all monster_ids ids (requests ++ flown.1) flown.0
        ]
  ]
