-- ===== src/Game/World/Foes.antt =====
-- server/internal/game/combat.go: the players' shots and the monsters' moves in `stepCombat`. `none` is
-- a route that does not end.
use the_return_of_the_odysse.Base.{
  ℕ, ◌+◌, ◌-◌, ◌%◌, ◌^◌, Bool, true, false, not, ◌&&◌, ◌||◌, Option, none, some, List, [], ◌∷◌,
  ◌++◌, ltb, leb, ◌==◌, if◌then◌else◌, length,
}
use the_return_of_the_odysse.Base.Words.{u64}
use the_return_of_the_odysse.Base.Floats.{Float64, zero_f}
use the_return_of_the_odysse.Base.Maps.{lookup, insert}
use the_return_of_the_odysse.Game.Entity.{
  Vec2, Player, Projectile, origin, monster_idle, monster_chase, monster_attack,
}
use the_return_of_the_odysse.Game.Config.{step_seconds, ai_decision_every}
use the_return_of_the_odysse.Game.Systems.{DamageRequest}
use the_return_of_the_odysse.Game.Arena.{first_cover_hit, move_with_cover}
use the_return_of_the_odysse.Game.Arena.Route.{route_around_cover}
use the_return_of_the_odysse.Game.World.{Member, Foe, projectile_spawned, World, allocate_id}
use the_return_of_the_odysse.Game.World.Stages.{emit, blank_event}

-- `assigned[id]`
abbrev pub assigned_to : ℕ → List (ℕ × ℕ) → ℕ
assigned_to id assigned = elim (lookup id assigned) [ none ↦ 0 | some n ↦ n ]

-- `if m.target != 0 { assigned[m.target]++ }`
abbrev pub assign : ℕ → List (ℕ × ℕ) → List (ℕ × ℕ)
assign target assigned =
    if target == 0 then assigned else insert target (assigned_to target assigned + 1) assigned

-- A tick of a reload.
abbrev pub reloaded : {F : Type 0} → Member F → Member F
reloaded m =
    let p = m.player in
    let left = p.reload_ticks_remaining - 1 in
    let ammo = if left == 0 && p.alive then p.magazine_capacity else p.ammo in
    record m { player = record p { reload_ticks_remaining = left; ammo = ammo } }

-- The player after a shot.
abbrev pub shot : {F : Type 0} → ℕ → Member F → Member F
shot tick m =
    let p = m.player in
    record m {
      player = record p { ammo = p.ammo - 1 };
      next_shot = u64 (tick + (p.current_stats).attack_cooldown_ticks);
    }

-- The guard before a shot.
abbrev pub holds_fire : {F : Type 0} → Member F → World F → Bool
holds_fire m w =
    not (m.player).alive
    || not m.firing
    || (m.player).ammo == 0
    || ltb w.tick m.next_shot
    || leb ((w.config).combat).max_projectiles (length w.projectiles)

module _ {F : Type 0} ⦃f : Float64 F⦄ where
  open f use {lit, infinity, of_nat, add, sub, mul, div, fmin, fmax, hypot, lt, le}

  abbrev pub projectile_of : ℕ → ℕ → Member F → World F → Projectile F
  projectile_of id owner m w =
      let c = (w.config).combat in
      let p = m.player in
      record {
        id = id;
        owner_id = owner;
        position = p.position;
        velocity = record {
          x = mul (p.aim).x c.projectile_speed;
          y = mul (p.aim).y c.projectile_speed;
        };
        attack = (p.current_stats).attack;
        radius = c.projectile_radius;
        expires_at_tick = u64 (w.tick + c.projectile_lifetime_ticks);
      }

  -- A shot of the player.
  abbrev pub fire : ℕ → Member F → World F → World F
  fire id m w =
      let (w', new_id) = allocate_id w in
      let p = projectile_of new_id id m w in
      let spawned = blank_event projectile_spawned in
      emit
        (record spawned {
          entity_id = new_id;
          source_id = id;
          position = p.position;
          velocity = p.velocity;
          expires_at_tick = p.expires_at_tick;
        })
        (record w' {
          players = insert id (shot w.tick m) w.players;
          projectiles = insert new_id p w.projectiles;
        })

  -- The loop over the players.
  unfoldable pub shoot_all : List ℕ → World F → World F
  shoot_all [] w = w
  shoot_all (id ∷ ids) w = elim (lookup id w.players) [
    | none ↦ shoot_all ids w
    | some m ↦ shoot_all ids (
        if ltb 0 (m.player).reload_ticks_remaining
        then record w { players = insert id (reloaded m) w.players }
        else if holds_fire m w
        then w
        else fire id m w)
  ]

  -- The loop that looks for the best target.
  abbrev pub best_target : Vec2 F → ℕ → List (ℕ × ℕ) → List (ℕ × Member F) → List ℕ → ℕ × F → ℕ × F
  best_target at before assigned players [] best = best
  best_target at before assigned players (id ∷ ids) best =
      let next : ℕ × F = elim (lookup id players) [
        | none ↦ best
        | some m ↦
            let p = m.player in
            let d = hypot (sub (p.position).x at.x) (sub (p.position).y at.y) in
            let shared = add d (mul (of_nat (assigned_to id assigned)) (lit 2 0)) in
            let score = if id == before then sub shared (lit 5 1) else shared in
            if p.alive && lt score best.1 then (id, score) else best
      ] in
      best_target at before assigned players ids next

  -- The target of a monster: on every third tick it is chosen again.
  abbrev pub aimed : List (ℕ × ℕ) → List ℕ → World F → Foe F → Foe F
  aimed assigned ids w e =
      let best = best_target (e.monster).position e.target assigned w.players ids (0, infinity) in
      if u64 (w.tick + (2 ^ 64 - 1)) % ai_decision_every == 0
      then record e { target = best.0 }
      else e

  -- The step of a monster towards its waypoint.
  abbrev pub steered : World F → Foe F → Bool → F → Vec2 F → Foe F
  steered w e covered distance waypoint =
      let m = e.monster in
      let steer_x = sub waypoint.x (m.position).x in
      let steer_y = sub waypoint.y (m.position).y in
      let steer_distance = hypot steer_x steer_y in
      let far = fmin (mul (m.current_stats).move_speed step_seconds) steer_distance in
      let step = if covered then far else fmin far (fmax zero_f (sub distance m.attack_range)) in
      let position =
        move_with_cover w.config w.covers m.position
          (record {
            x = mul (div steer_x steer_distance) step;
            y = mul (div steer_y steer_distance) step;
          })
          m.radius in
      let velocity : Vec2 F = record {
        x = div (sub position.x (e.previous).x) step_seconds;
        y = div (sub position.y (e.previous).y) step_seconds;
      } in
      if lt zero_f steer_distance
      then record e { monster = record m { position = position; velocity = velocity } }
      else e

  abbrev pub request_of : ℕ → Foe F → DamageRequest F
  request_of id e = record {
    source_id = id;
    target_id = e.target;
    attack = ((e.monster).current_stats).attack;
    target_player = true;
  }

  -- A monster within reach of its target: its attack, if the cooldown has passed.
  abbrev pub attacks : ℕ → World F → Foe F → Foe F × List (DamageRequest F)
  attacks id w e =
      let m = e.monster in
      let ready = record e { monster = record m { state = monster_attack } } in
      let next = u64 (w.tick + (m.current_stats).attack_cooldown_ticks) in
      if leb e.next_attack w.tick
      then (record ready { next_attack = next }, request_of id e ∷ [])
      else (ready, [])

  -- A monster with a target that lives.
  abbrev pub acts : ℕ → World F → Player F → Foe F → Option (Foe F × List (DamageRequest F))
  acts id w p e =
      let m = e.monster in
      let distance =
        hypot (sub (p.position).x (m.position).x) (sub (p.position).y (m.position).y) in
      let covered = (first_cover_hit w.covers m.position p.position zero_f).1 in
      let chasing = record e { monster = record m { state = monster_chase } } in
      elim (lt m.attack_range distance || covered) [
        | true ↦ elim (route_around_cover w.config w.covers m.position p.position m.radius) [
          | none ↦ none
          | some waypoint ↦ some (steered w chasing covered distance waypoint, [])
        ]
        | false ↦ some (attacks id w e)
      ]

  -- The monster at the start of its round: it stands still where it is.
  abbrev pub halted : Foe F → Foe F
  halted e =
      let m = e.monster in
      record e { previous = m.position; monster = record m { velocity = origin } }

  abbrev pub idle : Foe F → Foe F
  idle e = let m = e.monster in record e { monster = record m { state = monster_idle } }

  -- One monster: what it does about its target.
  abbrev pub moved : ℕ → World F → Foe F → Option (Foe F × List (DamageRequest F))
  moved id w e = elim (lookup e.target w.players) [
    | none ↦ some (idle e, [])
    | some m ↦ elim ((m.player).alive) [ true ↦ acts id w m.player e | false ↦ some (idle e, []) ]
  ]

  -- The loop over the monsters, with the assigned targets and the requests so far.
  unfoldable pub move_all :
      List ℕ
      → List ℕ
      → List (ℕ × ℕ)
      → List (DamageRequest F)
      → World F
      → Option (World F × List (DamageRequest F))
  move_all players [] assigned requests w = some (w, requests)
  move_all players (id ∷ ids) assigned requests w = elim (lookup id w.monsters) [
    | none ↦ move_all players ids assigned requests w
    | some e ↦
        let aiming = aimed assigned players w (halted e) in
        elim (moved id w aiming) [
          | none ↦ none
          | some (e', made) ↦
              move_all players ids (assign aiming.target assigned) (requests ++ made)
                (record w { monsters = insert id e' w.monsters })
        ]
  ]
