-- ===== src/Game/World/Core.antt =====
-- The part of a world that the loops of a tick leave alone, and that they do.
use the_return_of_the_odysse.Base.{
  ℕ, ◌+◌, ◌≡◌, refl, sym, ap, ◌∙◌, inl, inr, Bool, not, ◌||◌, Option, some, List, [], ◌∷◌, ◌++◌,
  arith, ltb, leb, ◌==◌, length, Bool-cases, Option-cases,
}
use the_return_of_the_odysse.Base.Words.{u64}
use the_return_of_the_odysse.Base.Floats.{Float64, zero_f}
use the_return_of_the_odysse.Base.Maps.{lookup, insert, erase}
use the_return_of_the_odysse.Game.Entity.{Projectile}
use the_return_of_the_odysse.Game.Equipment.{Catalog}
use the_return_of_the_odysse.Game.Reward.{Offer, Round}
use the_return_of_the_odysse.Game.Stage.{View, Plan, Spawn, playing}
use the_return_of_the_odysse.Game.Config.{Config}
use the_return_of_the_odysse.Game.Systems.{DamageRequest, DamageResolved, resolve_damage}
use the_return_of_the_odysse.Game.World.{StageSummary, World, ordered_ids, change_all, is_stage}
use the_return_of_the_odysse.Game.World.Stages.{emit, spawn_all}
use the_return_of_the_odysse.Game.World.Rewards.{announce, emit_reward_update}
use the_return_of_the_odysse.Game.World.Damage.{
  destroy_projectile, hurt_player, hurt_monster, tell_damage, strike, apply_damage, apply_all,
}
use the_return_of_the_odysse.Game.World.Foes.{reloaded, holds_fire, fire, shoot_all, move_all}
use the_return_of_the_odysse.Game.World.Shots.{fly_on, fly_all}
use the_return_of_the_odysse.Game.World.Combat.{bury, destroy_all, at_rest, still}
use the_return_of_the_odysse.Game.World.Pickups.{
  collect_for, collect_all, collect_pickups, spawn_stage_pickups,
}
use the_return_of_the_odysse.Game.World.Ticks.{step_member, step_players}
use the_return_of_the_odysse.Game.World.Members.Loops.{move_all-monsters}

pub record Core (F : Type 0) : Type 0 where
  pub config : Config F
  pub tick : ℕ
  pub stage : View F
  pub reward_round : Option Round
  pub reward_catalog : Catalog F
  pub current_plan : Plan F
  pub completed_stages : List (StageSummary F)
  pub run_started : Bool
  pub run_started_at_tick : ℕ
  pub run_ended_at_tick : ℕ

abbrev pub core : {F : Type 0} → World F → Core F
core w = record {
  config = w.config;
  tick = w.tick;
  stage = w.stage;
  reward_round = w.reward_round;
  reward_catalog = w.reward_catalog;
  current_plan = w.current_plan;
  completed_stages = w.completed_stages;
  run_started = w.run_started;
  run_started_at_tick = w.run_started_at_tick;
  run_ended_at_tick = w.run_ended_at_tick;
}

module _ {F : Type 0} ⦃f : Float64 F⦄ where
  open f use {same}

  pub core-bury : (ids : List ℕ) (w : World F) → core (bury ids w) ≡ core w
  unfolding bury
  core-bury [] w = refl
  core-bury (id ∷ ids) w = elim (Option-cases (lookup id w.monsters)) [
    | inl e ↦ rw (e, bury) (core-bury ids w)
    | inr (m, e) ↦ elim (Bool-cases (same (m.monster).health zero_f)) [
      | inl h ↦ rw (e, bury, h) (core-bury ids (record w { monsters = erase id w.monsters }))
      | inr h ↦ rw (e, bury, h) (core-bury ids w)
    ]
  ]

  pub core-destroy_all : (ids : List ℕ) (w : World F) → core (destroy_all ids w) ≡ core w
  unfolding destroy_all destroy_projectile emit
  core-destroy_all [] w = refl
  core-destroy_all (id ∷ ids) w = elim (Option-cases (lookup id w.projectiles)) [
    | inl e ↦ rw (e, destroy_all) (core-destroy_all ids w)
    | inr (p, e) ↦ rw (e, destroy_all) (core-destroy_all ids (destroy_projectile p w))
  ]

  pub core-still : (w : World F) → core (still w) ≡ core w
  unfolding still
  core-still w =
      core-destroy_all (ordered_ids w.projectiles)
        (record w { monsters = change_all at_rest w.monsters })

  core-fly_on :
      (id : ℕ) (p : Projectile F) (ms : List ℕ) (w : World F) → core (fly_on id p ms w).0 ≡ core w
  unfolding destroy_projectile emit
  core-fly_on id p ms w = ground arith

  pub core-fly_all :
      (ms ids : List ℕ) (qs : List (DamageRequest F)) (w : World F)
      → core (fly_all ms ids qs w).0 ≡ core w
  unfolding fly_all destroy_projectile emit
  core-fly_all ms [] qs w = refl
  core-fly_all ms (id ∷ ids) qs w = elim (Option-cases (lookup id w.projectiles)) [
    | inl e ↦ rw (e, fly_all) (core-fly_all ms ids qs w)
    | inr (p, e) ↦ elim (Bool-cases (leb p.expires_at_tick w.tick)) [
      | inl h ↦ rw (e, fly_all, h) (core-fly_all ms ids qs (destroy_projectile p w))
      | inr h ↦
          let flown = fly_on id p ms w in
          rw (e, fly_all, h) (core-fly_all ms ids (qs ++ flown.1) flown.0 ∙ core-fly_on id p ms w)
    ]
  ]

  pub core-shoot_all : (ids : List ℕ) (w : World F) → core (shoot_all ids w) ≡ core w
  unfolding shoot_all emit
  core-shoot_all [] w = refl
  core-shoot_all (id ∷ ids) w = elim (Option-cases (lookup id w.players)) [
    | inl e ↦ rw (e, shoot_all) (core-shoot_all ids w)
    | inr (m, e) ↦ elim (Bool-cases (ltb 0 (m.player).reload_ticks_remaining)) [
      | inl r ↦
          rw (e, shoot_all, r)
            (core-shoot_all ids (record w { players = insert id (reloaded m) w.players }))
      | inr r ↦ elim (Bool-cases (holds_fire m w)) [
        | inl h ↦ rw (e, shoot_all, r, h) (core-shoot_all ids w)
        | inr h ↦ rw (e, shoot_all, r, h) (core-shoot_all ids (fire id m w))
      ]
    ]
  ]

  core-tell_damage :
      (q : DamageRequest F) (r : DamageResolved F) (w : World F) → core (tell_damage q r w) ≡ core w
  unfolding emit
  core-tell_damage q r w = elim (Bool-cases r.killed) [ inl e ↦ rw e refl | inr e ↦ rw e refl ]

  core-strike :
      (q : DamageRequest F) (h d : F) (change : DamageResolved F → World F) (w w' : World F)
      → strike q h d change w ≡ some w'
      → ((r : DamageResolved F) → core (change r) ≡ core w)
      → core w' ≡ core w
  core-strike q h d change w w' e c = elim (Option-cases (resolve_damage q.attack d h)) [
    | inl n ↦ ground arith
    | inr (r, n) ↦ elim (Bool-cases (same r.amount zero_f)) [
      | inl z ↦ let k : w' ≡ w = ground arith in ap core k
      | inr z ↦
          let k : w' ≡ tell_damage q r (change r) = ground arith in
          ap core k ∙ core-tell_damage q r (change r) ∙ c r
    ]
  ]

  core-apply_damage :
      (q : DamageRequest F) (w w' : World F) → apply_damage q w ≡ some w' → core w' ≡ core w
  unfolding apply_damage
  core-apply_damage q w w' h = elim (Bool-cases q.target_player) [
    | inl t ↦ elim (Option-cases (lookup q.target_id w.players)) [
      | inl e ↦ let k : w' ≡ w = ground arith in ap core k
      | inr (m, e) ↦ elim (Bool-cases (m.player).alive) [
        | inl l ↦
            core-strike q (m.player).health ((m.player).current_stats).defense
              (λ r. hurt_player q.target_id r m w) w w' (ground arith) (λ r. refl)
        | inr l ↦ let k : w' ≡ w = ground arith in ap core k
      ]
    ]
    | inr t ↦ elim (Option-cases (lookup q.target_id w.monsters)) [
      | inl e ↦ let k : w' ≡ w = ground arith in ap core k
      | inr (m, e) ↦ elim (Bool-cases (same (m.monster).health zero_f)) [
        | inl z ↦ let k : w' ≡ w = ground arith in ap core k
        | inr z ↦
            core-strike q (m.monster).health ((m.monster).current_stats).defense
              (λ r. hurt_monster q.target_id q.source_id r m w) w w' (ground arith) (λ r. refl)
      ]
    ]
  ]

  pub core-apply_all :
      (qs : List (DamageRequest F)) (w w' : World F) → apply_all qs w ≡ some w' → core w' ≡ core w
  unfolding apply_all
  core-apply_all [] w w' h = let k : w' ≡ w = ground arith in ap core k
  core-apply_all (q ∷ qs) w w' h = elim (Option-cases (apply_damage q w)) [
    | inl e ↦ ground arith
    | inr (v, e) ↦ core-apply_all qs v w' (ground arith) ∙ core-apply_damage q w v e
  ]

  pub core-move_all :
      (ps ids : List ℕ) (assigned : List (ℕ × ℕ)) (qs qs' : List (DamageRequest F)) (w w' : World F)
      → move_all ps ids assigned qs w ≡ some (w', qs')
      → core w' ≡ core w
  core-move_all ps ids assigned qs qs' w w' h =
      ap core (sym (move_all-monsters ps ids assigned qs qs' w w' h).1)

  core-collect_all : (ids : List ℕ) (w : World F) → core (collect_all ids w) ≡ core w
  unfolding collect_all
  core-collect_all [] w = refl
  core-collect_all (id ∷ ids) w = elim (Option-cases (lookup id w.players)) [
    | inl e ↦ rw (e, collect_all) (core-collect_all ids w)
    | inr (m, e) ↦ elim (Bool-cases (m.player).alive) [
      | inl l ↦
          let got = collect_for w.reward_catalog (ordered_ids w.pickups) m w.pickups in
          rw (e, collect_all, l)
            (core-collect_all ids
              (record w { players = insert id got.0 w.players; pickups = got.1 }))
      | inr l ↦ rw (e, collect_all, l) (core-collect_all ids w)
    ]
  ]

  -- Before the combat of a tick only its number changes.
  pub core-step_players :
      (now : ℕ) (w : World F)
      → core (step_players now w) ≡ record (core w) { tick = u64 (w.tick + 1) }
  unfolding step_players collect_pickups
  core-step_players now w =
      let moved = record w { players = change_all (step_member now w) w.players } in
      elim (Bool-cases (not (is_stage playing w) || length w.pickups == 0)) [
        | inl e ↦ rw e refl
        | inr e ↦ rw e (
            ap (λ (c : Core F). record c { tick = u64 (c.tick + 1) })
              (core-collect_all (ordered_ids moved.players) moved))
      ]

  pub core-announce : (os : List Offer) (w : World F) → core (announce os w) ≡ core w
  unfolding announce emit_reward_update
  core-announce [] w = refl
  core-announce (o ∷ os) w = core-announce os _

  pub core-spawn_all : (ss : List (Spawn F)) (w : World F) → core (spawn_all ss w) ≡ core w
  unfolding spawn_all
  core-spawn_all [] w = refl
  core-spawn_all (s ∷ ss) w = core-spawn_all ss _

  pub core-spawn_stage_pickups : (i : ℕ) (w : World F) → core (spawn_stage_pickups i w) ≡ core w
  unfolding spawn_stage_pickups
  core-spawn_stage_pickups i w = ground arith
