-- ===== src/Game/World/Magazines.antt =====
-- The invariant of every player: the magazine, the reload, the inputs and the equipment.
use the_return_of_the_odysse.Base.{
  ℕ, ◌≤◌, ◌≡◌, refl, inl, inr, false, ◌&&◌, some, List, arith, leb, if◌then◌else◌, if_both,
}
use the_return_of_the_odysse.Base.Floats.{Float64}
use the_return_of_the_odysse.Base.Maps.{lookup}
use the_return_of_the_odysse.Base.Results.{Result-cases}
use the_return_of_the_odysse.Game.Entity.{Vec2, CombatStats}
use the_return_of_the_odysse.Game.Equipment.{Catalog}
use the_return_of_the_odysse.Game.Loadout.{Loadout, use_potion}
use the_return_of_the_odysse.Game.Loadout.Slots.{magazine_capacity_bounds}
use the_return_of_the_odysse.Game.Stage.{playing}
use the_return_of_the_odysse.Game.Config.{Config}
use the_return_of_the_odysse.Game.Systems.{move}
use the_return_of_the_odysse.Game.World.{Member, World, is_stage, empty_world}
use the_return_of_the_odysse.Game.World.Ammo.{
  start_reload, sync_magazine, sync_equipment, equipped, player_use_potion,
}
use the_return_of_the_odysse.Game.World.Foes.{reloaded}
use the_return_of_the_odysse.Game.World.Ticks.{
  turned, processed, heeded, walked, heading, is_fresh, step_member,
}
use the_return_of_the_odysse.Game.World.Calls.{Call, calls}
use the_return_of_the_odysse.Game.World.Members.{IsStable, lookup-AllOf}
use the_return_of_the_odysse.Game.World.Members.Histories.{calls-AllOf}

-- The ammunition fits the magazine, which holds 12 to 120; a reload has at most its 45 ticks left; no
-- input is processed before it is heard; the equipment shown is the loadout.
abbrev pub Sound : {F : Type 0} → Member F → Type 0
Sound m =
    ((m.player).ammo ≤ (m.player).magazine_capacity)
    × (12 ≤ (m.player).magazine_capacity)
    × ((m.player).magazine_capacity ≤ 120)
    × ((m.player).reload_ticks_remaining ≤ 45)
    × ((m.player).last_processed_input_seq ≤ (m.input).seq)
    × (((m.player).equipment).weapon_id ≡ (m.loadout).weapon_id)
    × (((m.player).equipment).relic_id ≡ (m.loadout).relic_id)
    × (((m.player).equipment).potion_id ≡ (m.loadout).potion_id)

module _ {F : Type 0} ⦃f : Float64 F⦄ where
  open f use {lit, sub, div, same}

  equipped-Sound :
      (c : Catalog F) (l : Loadout) (s : CombatStats F) (h : F) (m : Member F)
      → Sound m
      → Sound (equipped c l s h m)
  unfolding sync_magazine sync_equipment
  equipped-Sound c l s h m a =
      let fits : 12 ≤ 120 = omega arith in
      let (low, high) = magazine_capacity_bounds c l 12 fits in
      (omega arith, low, high, a.3, a.4, refl, refl, refl)

  reloaded-Sound : (m : Member F) → Sound m → Sound (reloaded m)
  reloaded-Sound m a = ground arith

  start_reload-Sound : (m : Member F) → Sound m → Sound (start_reload m)
  unfolding start_reload
  start_reload-Sound m a = ground arith

  player_use_potion-Sound : (c : Catalog F) (m : Member F) → Sound m → Sound (player_use_potion c m)
  unfolding player_use_potion sync_equipment
  player_use_potion-Sound c m a =
      elim (Result-cases
        (use_potion m.loadout (m.player).health ((m.player).current_stats).max_health c)) [
          | inl (x, e) ↦ rw (e, player_use_potion) a
          | inr ((l, h, id), e) ↦
              rw (e, player_use_potion) (a.0, a.1, a.2, a.3, a.4, refl, refl, refl)
        ]

  turned-Sound : (m : Member F) → Sound m → Sound (turned m)
  turned-Sound m a = ground arith

  processed-Sound : (w : World F) (m : Member F) → Sound m → Sound (processed w m)
  unfolding processed
  processed-Sound w m a =
      let p = m.player in
      let seen = record m { player = record p { last_processed_input_seq = (m.input).seq } } in
      let drinks = is_stage playing w && (m.input).use_potion in
      let drunk = if drinks then player_use_potion w.reward_catalog seen else seen in
      let a1 : Sound seen = ground arith in
      let a2 : Sound drunk =
        if_both Sound drinks (player_use_potion-Sound w.reward_catalog seen a1) a1 in
      if_both Sound (is_stage playing w && (m.input).reload) (start_reload-Sound drunk a2) a2

  heeded-Sound : (w : World F) (m : Member F) → Sound m → Sound (heeded w m)
  unfolding heeded
  heeded-Sound w m a =
      let facing = turned (record m { firing = is_stage playing w && (m.input).shoot }) in
      let a1 = turned-Sound (record m { firing = is_stage playing w && (m.input).shoot }) a in
      if_both Sound m.pending (processed-Sound w facing a1) a1

  walked-Sound : (w : World F) (d : Vec2 F) (m : Member F) → Sound m → Sound (walked w d m)
  unfolding walked move
  walked-Sound w d m a = a

  step_member-Sound : (now : ℕ) (w : World F) (m : Member F) → Sound m → Sound (step_member now w m)
  unfolding step_member
  step_member-Sound now w m a =
      let idle = record m { firing = false } in
      let heard = if is_fresh now w m then heeded w idle else idle in
      let a1 : Sound heard = if_both Sound (is_fresh now w m) (heeded-Sound w idle a) a in
      let done = record heard { pending = if leb m.received_at now then false else m.pending } in
      if_both Sound (m.player).alive (walked-Sound w (heading now w m) done a1) (ground arith)

  Sound-IsStable : IsStable (Sound {F = F})
  Sound-IsStable = record {
    joined = λ id c. ground arith;
    heard = λ i at m late a. ground arith;
    stepped = step_member-Sound;
    healed = λ h m a. a;
    armed = equipped-Sound;
    loaded = reloaded-Sound;
    fired = λ tick m a. ground arith;
    struck = λ r m a. a;
    back = λ spawn m a. a;
    filled = λ m a. ground arith;
  }

  -- In a world that started empty, after any history of calls that does not panic, every player is
  -- sound: the ammunition fits the magazine, which holds at least 12 and at most 120 rounds; a reload
  -- has at most 45 ticks left; the last processed input is not newer than the last one heard; and the
  -- equipment that snapshots and results show is the loadout.
  pub calls-Sound :
      (config : Config F) (catalog : Catalog F) (cs : List (Call F)) (w : World F) (id : ℕ)
      (m : Member F)
      → calls cs (empty_world config catalog) ≡ some w
      → lookup id w.players ≡ some m
      → Sound m
  calls-Sound config catalog cs w id m h found =
      lookup-AllOf Sound id m w.players found
        (calls-AllOf Sound-IsStable cs (empty_world config catalog) w h tt)
