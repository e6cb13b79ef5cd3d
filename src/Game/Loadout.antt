-- ===== src/Game/Loadout.antt =====
-- server/internal/game/equipment/loadout.go: what a player wears, and what it does.
pub mod Slots
pub mod Effects
mod Tests
use the_return_of_the_odysse.Base.{
  ℕ, ◌+◌, ◌-◌, ◌^◌, Bool, true, false, not, ◌&&◌, ◌||◌, Option, none, some, List, [], ◌∷◌, ltb,
  ◌==◌, if◌then◌else◌, min,
}
use the_return_of_the_odysse.Base.Floats.{Float64, zero_f, one_f, odd_f}
use the_return_of_the_odysse.Base.Maps.{lookup}
use the_return_of_the_odysse.Base.Results.{Result, ok, err, ◌>>=◌, ◌>>◌, reject_if}
use the_return_of_the_odysse.Game.Entity.{CombatStats, valid_stats}
use the_return_of_the_odysse.Game.Equipment.{
  Error, invalid_loadout, invalid_stats, no_potion, invalid_health, panics, Slot, weapon, relic,
  potion, other_slot, Stat, attack, defense, max_health, move_speed, attack_speed, other_stat,
  Operation, adds, Modifier, Definition, Catalog, same_slot, finite_positive, validate, require_,
}

pub record Loadout : Type 0 where
  pub weapon_id : ℕ
  pub relic_id : ℕ
  pub potion_id : ℕ

abbrev pub bonus_of : {F : Type 0} → Option (Definition F) → ℕ
bonus_of none = 0
bonus_of (some d) = d.magazine_bonus

-- `Catalog.MagazineCapacity`
unfoldable pub magazine_capacity : {F : Type 0} → Catalog F → Loadout → ℕ → ℕ
magazine_capacity c l base =
    min (base + bonus_of (lookup l.weapon_id c.items) + bonus_of (lookup l.relic_id c.items)) 120

-- The `switch` of `Equip`.
abbrev pub put_on : Slot → ℕ → Loadout → Result Error Loadout
put_on weapon id l = ok (record l { weapon_id = id })
put_on relic id l = ok (record l { relic_id = id })
put_on potion id l = ok (record l { potion_id = id })
put_on other_slot id l = err invalid_loadout

module _ {F : Type 0} ⦃f : Float64 F⦄ where
  open f use {of_nat, to_nat, add, mul, div, round, fmin, lt, le}

  -- `Loadout.Equip`
  unfoldable pub equip : Loadout → Definition F → Result Error Loadout
  equip l d = validate d >> put_on d.slot d.id l

  -- `*target += modifier.Value` or `*target *= modifier.Value`
  abbrev pub modified : Operation → F → F → F
  modified adds v x = add x v
  modified _ v x = mul x v

  -- One modifier, on the stats and the attack speed.
  abbrev pub modify_stat :
      Stat → Operation → F → CombatStats F × F → Result Error (CombatStats F × F)
  modify_stat attack o v (s, speed) = ok (record s { attack = modified o v s.attack }, speed)
  modify_stat defense o v (s, speed) = ok (record s { defense = modified o v s.defense }, speed)
  modify_stat max_health o v (s, speed) =
      ok (record s { max_health = modified o v s.max_health }, speed)
  modify_stat move_speed o v (s, speed) =
      ok (record s { move_speed = modified o v s.move_speed }, speed)
  modify_stat attack_speed o v (s, speed) = ok (s, modified o v speed)
  modify_stat other_stat o v (s, speed) = err panics

  -- The loop over the modifiers of one item.
  unfoldable pub modify : List (Modifier F) → CombatStats F × F → Result Error (CombatStats F × F)
  modify [] acc = ok acc
  modify (m ∷ ms) acc = modify_stat m.stat m.operation m.value acc >>= modify ms

  -- One round of the loop of `Resolve` over the slots.
  unfoldable pub wear : Catalog F → Slot → ℕ → CombatStats F × F → Result Error (CombatStats F × F)
  unfolding modify
  wear c want id acc = if id == 0 then ok acc else elim (require_ c id) [
    | err e ↦ err invalid_loadout
    | ok d ↦ if same_slot d.slot want then modify d.modifiers acc else err invalid_loadout
  ]

  -- The end of `Resolve`: the cooldown from the attack speed, and the check of the result.
  unfoldable pub settle : ℕ → CombatStats F × F → Result Error (CombatStats F)
  settle tick_rate (s, speed) = do
    reject_if (not (finite_positive speed)) invalid_stats
    let raw = round (div (of_nat tick_rate) speed)
    let cooldown = if lt raw one_f then one_f else raw
    reject_if (lt (of_nat (2 ^ 32 - 1)) cooldown) invalid_stats
    let resolved = record s { attack_cooldown_ticks = to_nat cooldown }
    reject_if (not (valid_stats resolved)) invalid_stats
    ok resolved

  -- `Resolve`
  unfoldable pub resolve : CombatStats F → Loadout → Catalog F → ℕ → Result Error (CombatStats F)
  unfolding wear settle
  resolve base l c tick_rate = do
    reject_if (not (valid_stats base) || tick_rate == 0) invalid_stats
    armed ←
        wear c weapon l.weapon_id (base, div (of_nat tick_rate) (of_nat base.attack_cooldown_ticks))
    worn ← wear c relic l.relic_id armed
    settle tick_rate worn

  -- `Apply`: an error leaves the loadout and the health as they are.
  unfoldable pub apply :
      CombatStats F → F → Loadout → ℕ → Catalog F → ℕ → Result Error (Loadout × CombatStats F × F)
  apply base health l selected c tick_rate = do
    d ← require_ c selected
    next ← equip l d
    stats ← resolve base next c tick_rate
    reject_if (odd_f health || lt health zero_f) invalid_health
    ok (next, stats, fmin health stats.max_health)

  -- `UsePotion`: the new loadout, the health and the item used.
  unfoldable pub use_potion : Loadout → F → F → Catalog F → Result Error (Loadout × F × ℕ)
  use_potion l health most c = do
    reject_if (l.potion_id == 0) no_potion
    reject_if (odd_f health || odd_f most || lt health zero_f || le most zero_f || lt most health)
        invalid_health
    elim (require_ c l.potion_id) [
      | err e ↦ err invalid_loadout
      | ok d ↦
          if same_slot d.slot potion
          then ok (record l { potion_id = 0 }, fmin most (add health d.heal), l.potion_id)
          else err invalid_loadout
    ]
