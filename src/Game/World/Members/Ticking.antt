-- ===== src/Game/World/Members/Ticking.antt =====
-- What a whole tick does to all players.
use the_return_of_the_odysse.Base.{
  ℕ, ◌≡◌, refl, sym, subst, ◌∙◌, ◌⊎◌, inl, inr, not, ◌||◌, some, List, [], ◌∷◌, arith, ◌==◌, length,
  Bool-cases, Option-cases,
}
use the_return_of_the_odysse.Base.Floats.{Float64}
use the_return_of_the_odysse.Base.Maps.{lookup, insert, erase}
use the_return_of_the_odysse.Base.Results.{Result-cases}
use the_return_of_the_odysse.Game.Equipment.{Catalog}
use the_return_of_the_odysse.Game.Loadout.{Loadout}
use the_return_of_the_odysse.Game.Entity.{CombatStats}
use the_return_of_the_odysse.Game.Stage.{playing}
use the_return_of_the_odysse.Game.World.{
  Member, PickupView, PickupKind, health_pickup, weapon_pickup, World, ordered_ids, is_stage,
  change_all,
}
use the_return_of_the_odysse.Game.World.Ammo.{equipped, apply_to}
use the_return_of_the_odysse.Game.World.Stages.{emit, living}
use the_return_of_the_odysse.Game.World.Performance.{freeze_performance}
use the_return_of_the_odysse.Game.World.Damage.{apply_all}
use the_return_of_the_odysse.Game.World.Foes.{shoot_all, move_all}
use the_return_of_the_odysse.Game.World.Shots.{fly_all}
use the_return_of_the_odysse.Game.World.Combat.{
  bury, counted, still, lose_stage, clear_stage, judge, fight, step_combat, at_rest,
}
use the_return_of_the_odysse.Game.World.Pickups.{
  pickup_radius, used_up, take_pickup, collect_for, collect_all, collect_pickups,
}
use the_return_of_the_odysse.Game.World.Ticks.{step_member, step_players}
use the_return_of_the_odysse.Game.World.Members.{
  IsStable, AllOf, insert-AllOf, lookup-AllOf, change_all-AllOf, with_health,
}
use the_return_of_the_odysse.Game.World.Members.Loops.{
  bury-players, destroy_all-players, move_all-monsters, fly_all-players, shoot_all-AllOf,
  apply_all-AllOf,
}

module _ {F : Type 0} ⦃f : Float64 F⦄ where
  open f use {add, sub, fmin, hypot, lt, le}

  pub still-players : (w : World F) → (still w).players ≡ w.players
  unfolding still
  still-players w =
      destroy_all-players (ordered_ids w.projectiles)
        (record w { monsters = change_all at_rest w.monsters })

  pub judge-players : (w : World F) → (judge w).players ≡ w.players
  unfolding judge lose_stage clear_stage freeze_performance emit
  judge-players w = elim (Bool-cases (living w.players == 0)) [
    | inl e ↦ rw (e, judge) (still-players (lose_stage w))
    | inr e ↦ elim (Bool-cases (length w.monsters == 0)) [
      | inl z ↦ rw (e, judge, z) (still-players (clear_stage w))
      | inr z ↦ rw (e, judge, z) refl
    ]
  ]

  -- `take_pickup`, when it takes something: the player is healed or armed.
  abbrev Taken : Catalog F → Member F → Member F → Type 0
  Taken c m m' =
      ((h : F) × (with_health h m ≡ m'))
      ⊎ ((l : Loadout) × (s : CombatStats F) × (h : F) × (equipped c l s h m ≡ m'))

  used_up-Taken :
      (c : Catalog F) (k : PickupKind) (id : ℕ) (v : F) (m m' : Member F)
      → used_up c k id v m ≡ some m'
      → Taken c m m'
  unfolding used_up
  used_up-Taken c health_pickup id v m m' h =
      elim (Bool-cases (le ((m.player).current_stats).max_health (m.player).health)) [
        | inl e ↦ ground arith
        | inr e ↦
            inl (fmin ((m.player).current_stats).max_health (add (m.player).health v), ground arith)
      ]
  used_up-Taken c weapon_pickup id v m m' h = elim (Result-cases (apply_to c id m)) [
    | inl (x, e) ↦ ground arith
    | inr ((l, s, health), e) ↦ inr (l, s, health, ground arith)
  ]

  take_pickup-Taken :
      (c : Catalog F) (p : PickupView F) (m m' : Member F)
      → take_pickup c p m ≡ some m'
      → Taken c m m'
  unfolding take_pickup
  take_pickup-Taken c p m m' h =
      let away =
        hypot (sub ((m.player).position).x (p.position).x)
          (sub ((m.player).position).y (p.position).y) in
      elim (Bool-cases (lt pickup_radius away)) [
        | inl e ↦ ground arith
        | inr e ↦ used_up-Taken c p.kind p.equipment_id p.value m m' (ground arith)
      ]

  module _ {P : Member F → Type 0} (stable : IsStable P) where
    fight-AllOf : (w w' : World F) → fight w ≡ some w' → AllOf P w.players → AllOf P w'.players
    unfolding fight
    fight-AllOf w w' h a =
        let ms = ordered_ids w.monsters in
        let ps = ordered_ids w.players in
        let shot_at = shoot_all ps w in
        let a1 = shoot_all-AllOf stable ps w a in
        elim (Option-cases (move_all ps ms [] [] shot_at)) [
          | inl e ↦ ground arith
          | inr ((acted, qs), e) ↦
              let (foes, same) = move_all-monsters ps ms [] [] qs shot_at acted e in
              let a2 : AllOf P acted.players = subst (λ (x : World F). AllOf P x.players) same a1 in
              let flight = fly_all ms (ordered_ids acted.projectiles) qs acted in
              let a3 : AllOf P (flight.0).players =
                subst (AllOf P) (sym (fly_all-players ms (ordered_ids acted.projectiles) qs acted))
                  a2 in
              elim (Option-cases (apply_all flight.1 flight.0)) [
                | inl n ↦ ground arith
                | inr (hit, n) ↦
                    let a4 = apply_all-AllOf stable flight.1 flight.0 hit n a3 in
                    let k : judge (counted (bury ms hit)) ≡ w' = ground arith in
                    subst (λ x. AllOf P x.players) k
                      (subst (AllOf P)
                        (sym (judge-players (counted (bury ms hit)) ∙ bury-players ms hit)) a4)
              ]
        ]

    pub step_combat-AllOf :
        (w w' : World F) → step_combat w ≡ some w' → AllOf P w.players → AllOf P w'.players
    unfolding step_combat
    step_combat-AllOf w w' h a = elim (Bool-cases (is_stage playing w)) [
      | inl e ↦ fight-AllOf w w' (ground arith) a
      | inr e ↦ let k : w ≡ w' = ground arith in subst (λ x. AllOf P x.players) k a
    ]

    take_pickup-keeps :
        (c : Catalog F) (p : PickupView F) (m m' : Member F)
        → take_pickup c p m ≡ some m'
        → P m
        → P m'
    take_pickup-keeps c p m m' h good = elim (take_pickup-Taken c p m m' h) [
      | inl (v, k) ↦ subst P k (stable.healed v m good)
      | inr (l, s, v, k) ↦ subst P k (stable.armed c l s v m good)
    ]

    collect_for-keeps :
        (c : Catalog F) (ids : List ℕ) (m : Member F) (ps : List (ℕ × PickupView F))
        → P m
        → P (collect_for c ids m ps).0
    unfolding collect_for
    collect_for-keeps c [] m ps good = good
    collect_for-keeps c (id ∷ ids) m ps good = elim (Option-cases (lookup id ps)) [
      | inl e ↦ rw (e, collect_for) (collect_for-keeps c ids m ps good)
      | inr (p, e) ↦ elim (Option-cases (take_pickup c p m)) [
        | inl n ↦ rw (e, collect_for, n) (collect_for-keeps c ids m ps good)
        | inr (m', n) ↦
            rw (e, collect_for, n)
              (collect_for-keeps c ids m' (erase id ps) (take_pickup-keeps c p m m' n good))
      ]
    ]

    collect_all-AllOf :
        (ids : List ℕ) (w : World F) → AllOf P w.players → AllOf P (collect_all ids w).players
    unfolding collect_all
    collect_all-AllOf [] w a = a
    collect_all-AllOf (id ∷ ids) w a = elim (Option-cases (lookup id w.players)) [
      | inl e ↦ rw (e, collect_all) (collect_all-AllOf ids w a)
      | inr (m, e) ↦ elim (Bool-cases (m.player).alive) [
        | inl l ↦
            let got = collect_for w.reward_catalog (ordered_ids w.pickups) m w.pickups in
            let good =
              collect_for-keeps w.reward_catalog (ordered_ids w.pickups) m w.pickups
                (lookup-AllOf P id m w.players e a) in
            rw (e, collect_all, l)
              (collect_all-AllOf ids
                (record w { players = insert id got.0 w.players; pickups = got.1 })
                (insert-AllOf P id got.0 w.players good a))
        | inr l ↦ rw (e, collect_all, l) (collect_all-AllOf ids w a)
      ]
    ]

    pub step_players-AllOf :
        (now : ℕ) (w : World F) → AllOf P w.players → AllOf P (step_players now w).players
    unfolding step_players collect_pickups
    step_players-AllOf now w a =
        let moved = record w { players = change_all (step_member now w) w.players } in
        let a' = change_all-AllOf P (step_member now w) w.players (stable.stepped now w) a in
        elim (Bool-cases (not (is_stage playing w) || length w.pickups == 0)) [
          | inl e ↦ rw e a'
          | inr e ↦ rw e (collect_all-AllOf (ordered_ids moved.players) moved a')
        ]
