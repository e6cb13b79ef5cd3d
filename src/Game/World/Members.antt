-- ===== src/Game/World/Members.antt =====
-- What all players of a world have in common: a predicate that every change of a player keeps holds
-- of all players after any call.
pub mod Loops
pub mod Ticking
pub mod Granting
pub mod Histories
use the_return_of_the_odysse.Base.{
  ℕ, ◌≡◌, refl, inl, inr, sym, subst, true, false, Option, none, some, List, [], ◌∷◌, arith, leb,
  ◌==◌, if◌then◌else◌, Bool-cases, Option-cases, All,
}
use the_return_of_the_odysse.Base.Floats.{Float64}
use the_return_of_the_odysse.Base.Maps.{lookup, insert, erase}
use the_return_of_the_odysse.Base.Results.{Result, ok, err}
use the_return_of_the_odysse.Game.Entity.{Vec2, CombatStats}
use the_return_of_the_odysse.Game.Equipment.{Catalog}
use the_return_of_the_odysse.Game.Loadout.{Loadout}
use the_return_of_the_odysse.Game.Config.{Config}
use the_return_of_the_odysse.Game.Systems.{DamageRequest, DamageResolved}
use the_return_of_the_odysse.Game.World.{
  Input, Member, PickupView, World, new_member, merged, change_all,
}
use the_return_of_the_odysse.Game.World.Ammo.{equipped}
use the_return_of_the_odysse.Game.World.Stages.{emit, returned, refilled}
use the_return_of_the_odysse.Game.World.Damage.{hurt, destroy_projectile, apply_damage, apply_all}
use the_return_of_the_odysse.Game.World.Foes.{reloaded, shot, shoot_all, move_all}
use the_return_of_the_odysse.Game.World.Shots.{fly_on, fly_all}
use the_return_of_the_odysse.Game.World.Pickups.{take_pickup, collect_for, collect_all}
use the_return_of_the_odysse.Game.World.Ticks.{step_member}

-- The player with other health.
abbrev pub with_health : {F : Type 0} → F → Member F → Member F
with_health h m = let p = m.player in record m { player = record p { health = h } }

-- The player with an input that was accepted.
abbrev pub hearing : {F : Type 0} ⦃f : Float64 F⦄ → Input F → ℕ → Member F → Member F
hearing i at m = record m { input = merged m i; received_at = at; pending = true }

-- Every change that a world makes to a player keeps `P`.
pub record IsStable {F : Type 0} ⦃f : Float64 F⦄ (P : Member F → Type 0) : Type 0 where
  pub joined : (id : ℕ) (c : Config F) → P (new_member id c)
  pub heard :
      (i : Input F) (at : ℕ) (m : Member F)
      → leb i.seq (m.input).seq ≡ false
      → P m
      → P (hearing i at m)
  pub stepped : (now : ℕ) (w : World F) (m : Member F) → P m → P (step_member now w m)
  pub healed : (h : F) (m : Member F) → P m → P (with_health h m)
  pub armed :
      (c : Catalog F) (l : Loadout) (s : CombatStats F) (h : F) (m : Member F)
      → P m
      → P (equipped c l s h m)
  pub loaded : (m : Member F) → P m → P (reloaded m)
  pub fired : (tick : ℕ) (m : Member F) → P m → P (shot tick m)
  pub struck : (r : DamageResolved F) (m : Member F) → P m → P (hurt r m)
  pub back : (spawn : Vec2 F) (m : Member F) → P m → P (returned spawn m)
  pub filled : (m : Member F) → P m → P (refilled m)

abbrev pub AllOf : {V : Type 0} → (V → Type 0) → List (ℕ × V) → Type 0
AllOf P m = All (λ entry. P entry.1) m

module _ {V : Type 0} (P : V → Type 0) where
  pub insert-AllOf : (id : ℕ) (v : V) (m : List (ℕ × V)) → P v → AllOf P m → AllOf P (insert id v m)
  insert-AllOf id v [] p a = (p, tt)
  insert-AllOf id v (entry ∷ rest) p a = elim (Bool-cases (entry.0 == id)) [
    | inl e ↦ rw e (p, a.1)
    | inr e ↦ rw e (a.0, insert-AllOf id v rest p a.1)
  ]

  pub erase-AllOf : (id : ℕ) (m : List (ℕ × V)) → AllOf P m → AllOf P (erase id m)
  erase-AllOf id [] a = a
  erase-AllOf id (entry ∷ rest) a = elim (Bool-cases (entry.0 == id)) [
    | inl e ↦ rw e (erase-AllOf id rest a.1)
    | inr e ↦ rw e (a.0, erase-AllOf id rest a.1)
  ]

  pub lookup-AllOf : (id : ℕ) (v : V) (m : List (ℕ × V)) → lookup id m ≡ some v → AllOf P m → P v
  lookup-AllOf id v [] h a = cc
  lookup-AllOf id v (entry ∷ rest) h a = elim (Bool-cases (entry.0 == id)) [
    | inl e ↦ let same : entry.1 ≡ v = ground arith in subst P same a.0
    | inr e ↦ let later : lookup id rest ≡ some v = ground arith in lookup-AllOf id v rest later a.1
  ]

  pub change_all-AllOf :
      (change : V → V) (m : List (ℕ × V))
      → ((v : V) → P v → P (change v))
      → AllOf P m
      → AllOf P (change_all change m)
  change_all-AllOf change [] h a = a
  change_all-AllOf change (entry ∷ rest) h a = (h entry.1 a.0, change_all-AllOf change rest h a.1)
