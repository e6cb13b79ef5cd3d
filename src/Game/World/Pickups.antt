-- ===== src/Game/World/Pickups.antt =====
-- server/internal/game/pickups.go: the items that lie on the map.
use the_return_of_the_odysse.Base.{
  ℕ, ◌-◌, ◌%◌, Bool, true, false, not, ◌||◌, Option, none, some, List, [], ◌∷◌, ◌==◌, if◌then◌else◌,
  length, get_or,
}
use the_return_of_the_odysse.Base.Floats.{Float64, zero_f}
use the_return_of_the_odysse.Base.Maps.{lookup, insert, erase}
use the_return_of_the_odysse.Base.Results.{ok, err}
use the_return_of_the_odysse.Game.Entity.{Vec2}
use the_return_of_the_odysse.Game.Equipment.{Definition, Catalog, weapon, same_slot}
use the_return_of_the_odysse.Game.Stage.{playing}
use the_return_of_the_odysse.Game.Config.{Config}
use the_return_of_the_odysse.Game.Arena.{clear_spawn_from_cover}
use the_return_of_the_odysse.Game.World.{
  Member, PickupView, PickupKind, health_pickup, weapon_pickup, World, ordered_ids, is_stage,
  allocate_id,
}
use the_return_of_the_odysse.Game.World.Ammo.{apply_to, equipped}

abbrev pub is_weapon : {F : Type 0} → Option (Definition F) → Bool
is_weapon none = false
is_weapon (some d) = same_slot d.slot weapon

-- The loop of `spawnStagePickups` over the catalogue's IDs.
abbrev pub weapon_ids : {F : Type 0} → Catalog F → List ℕ → List ℕ
weapon_ids c [] = []
weapon_ids c (id ∷ ids) =
    let rest = weapon_ids c ids in if is_weapon (lookup id c.items) then id ∷ rest else rest

module _ {F : Type 0} ⦃f : Float64 F⦄ where
  open f use {lit, add, sub, mul, fmin, hypot, lt, le}

  abbrev pub pickup_radius : F
  pickup_radius = lit 72 2

  -- A point of the map, in hundredths of its sides.
  abbrev pub map_point : Config F → ℕ → ℕ → Vec2 F
  map_point c across up = record {
    x = add (c.min_corner).x (mul (sub (c.max_corner).x (c.min_corner).x) (lit across 2));
    y = add (c.min_corner).y (mul (sub (c.max_corner).y (c.min_corner).y) (lit up 2));
  }

  -- A new pickup at the point, or beside a cover.
  abbrev pub put_pickup : (ℕ → Vec2 F → PickupView F) → Vec2 F → World F → World F
  put_pickup make at w =
      let position = clear_spawn_from_cover w.config w.covers at pickup_radius in
      let (w', id) = allocate_id w in record w' { pickups = insert id (make id position) w.pickups }

  abbrev pub health_view : ℕ → Vec2 F → PickupView F
  health_view id position = record {
    id = id;
    kind = health_pickup;
    position = position;
    equipment_id = 0;
    value = lit 30 0;
  }

  abbrev pub weapon_view : ℕ → ℕ → Vec2 F → PickupView F
  weapon_view equipment id position = record {
    id = id;
    kind = weapon_pickup;
    position = position;
    equipment_id = equipment;
    value = zero_f;
  }

  -- `spawnStagePickups`; `stageIndex` is not 0.
  unfoldable pub spawn_stage_pickups : ℕ → World F → World F
  spawn_stage_pickups stage_index w =
      let flip = stage_index % 2 == 0 in
      let health_y = if flip then 76 else 24 in
      let weapon_y = if flip then 24 else 76 in
      let healed =
        put_pickup health_view (map_point w.config 20 health_y) (record w { pickups = [] }) in
      let weapons = weapon_ids w.reward_catalog (w.reward_catalog).ids in
      if length weapons == 0
      then healed
      else put_pickup (weapon_view (get_or weapons ((stage_index - 1) % length weapons) 0))
          (map_point w.config 80 weapon_y) healed

  -- The `switch` of `collectPickups`: the player after the pickup, or none for `continue`.
  unfoldable pub used_up : Catalog F → PickupKind → ℕ → F → Member F → Option (Member F)
  used_up c health_pickup id value m =
      let p = m.player in
      if le (p.current_stats).max_health p.health
      then none
      else some (record m {
        player = record p { health = fmin (p.current_stats).max_health (add p.health value) };
      })
  used_up c weapon_pickup id value m = elim (apply_to c id m) [
    | err e ↦ none
    | ok (l, stats, health) ↦ some (equipped c l stats health m)
  ]

  -- One pickup and one player: the player after it was taken, or none.
  unfoldable pub take_pickup : Catalog F → PickupView F → Member F → Option (Member F)
  unfolding used_up
  take_pickup c pickup m =
      let at = (m.player).position in
      let distance = hypot (sub at.x (pickup.position).x) (sub at.y (pickup.position).y) in
      if lt pickup_radius distance
      then none
      else used_up c pickup.kind pickup.equipment_id pickup.value m

  -- The loop of `collectPickups` over the pickups, for one player.
  unfoldable pub collect_for :
      Catalog F → List ℕ → Member F → List (ℕ × PickupView F) → Member F × List (ℕ × PickupView F)
  collect_for c [] m pickups = (m, pickups)
  collect_for c (id ∷ ids) m pickups = elim (lookup id pickups) [
    | none ↦ collect_for c ids m pickups
    | some pickup ↦ elim (take_pickup c pickup m) [
      | none ↦ collect_for c ids m pickups
      | some m' ↦ collect_for c ids m' (erase id pickups)
    ]
  ]

  -- The loop of `collectPickups` over the players.
  unfoldable pub collect_all : List ℕ → World F → World F
  unfolding collect_for
  collect_all [] w = w
  collect_all (id ∷ ids) w = elim (lookup id w.players) [
    | none ↦ collect_all ids w
    | some m ↦
        let (m', pickups) = collect_for w.reward_catalog (ordered_ids w.pickups) m w.pickups in
        elim (m.player).alive [
          | false ↦ collect_all ids w
          | true ↦
              collect_all ids (record w { players = insert id m' w.players; pickups = pickups })
        ]
  ]

  -- `collectPickups`
  unfoldable pub collect_pickups : World F → World F
  unfolding collect_all
  collect_pickups w =
      if not (is_stage playing w) || length w.pickups == 0
      then w
      else collect_all (ordered_ids w.players) w
