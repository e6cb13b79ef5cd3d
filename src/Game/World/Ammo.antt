-- ===== src/Game/World/Ammo.antt =====
-- server/internal/game/ammo.go, and what rewards.go and pickups.go do with a player's equipment.
use the_return_of_the_odysse.Base.{ℕ, ◌&&◌, ltb, ◌==◌, if◌then◌else◌, min}
use the_return_of_the_odysse.Base.Floats.{Float64}
use the_return_of_the_odysse.Base.Results.{Result, ok, err}
use the_return_of_the_odysse.Game.Entity.{CombatStats}
use the_return_of_the_odysse.Game.Equipment.{Catalog}
use the_return_of_the_odysse.Game.Loadout.{Loadout, magazine_capacity, apply, use_potion}
use the_return_of_the_odysse.Game.Config.{tick_rate}
use the_return_of_the_odysse.Game.Equipment as Equipment
use the_return_of_the_odysse.Game.World.{Member, base_magazine_capacity}

abbrev pub reload_duration_ticks : ℕ
reload_duration_ticks = 45

-- `startReload`
unfoldable pub start_reload : {F : Type 0} → Member F → Member F
start_reload m =
    let p = m.player in
    if p.alive && ltb p.ammo p.magazine_capacity && p.reload_ticks_remaining == 0
    then record m { player = record p { reload_ticks_remaining = reload_duration_ticks } }
    else m

-- `syncMagazine`
unfoldable pub sync_magazine : {F : Type 0} → Catalog F → Member F → Member F
unfolding magazine_capacity
sync_magazine c m =
    let p = m.player in
    let capacity = magazine_capacity c m.loadout base_magazine_capacity in
    record m { player = record p { magazine_capacity = capacity; ammo = min p.ammo capacity } }

-- `syncEquipment`; the IDs are 32-bit numbers on both sides.
unfoldable pub sync_equipment : {F : Type 0} → Member F → Member F
sync_equipment m =
    let p = m.player in
    record m {
      player = record p {
        equipment = record {
          weapon_id = (m.loadout).weapon_id;
          relic_id = (m.loadout).relic_id;
          potion_id = (m.loadout).potion_id;
        };
      };
    }

-- The new loadout, stats and health of a player, and what follows from them.
abbrev pub equipped : {F : Type 0} → Catalog F → Loadout → CombatStats F → F → Member F → Member F
equipped c l stats health m =
    let p = m.player in
    sync_magazine c (
      sync_equipment
        (record m { loadout = l; player = record p { current_stats = stats; health = health } }))

module _ {F : Type 0} ⦃f : Float64 F⦄ where
  -- `equipment.Apply` for a player and an item.
  abbrev pub apply_to :
      Catalog F → ℕ → Member F → Result Equipment.Error (Loadout × CombatStats F × F)
  apply_to c id m = apply (m.player).base_stats (m.player).health m.loadout id c tick_rate

  -- `World.usePotion`
  unfoldable pub player_use_potion : Catalog F → Member F → Member F
  unfolding sync_equipment
  player_use_potion c m =
      let p = m.player in
      elim (use_potion m.loadout p.health (p.current_stats).max_health c) [
        | err e ↦ m
        | ok (l, health, used) ↦
            sync_equipment (record m { loadout = l; player = record p { health = health } })
      ]
