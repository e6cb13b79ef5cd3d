-- ===== src/Game/World/Members/Loops.antt =====
-- What the loops of a tick do to all players.
use the_return_of_the_odysse.Base.{
  ℕ, ◌≡◌, refl, subst, ◌∙◌, inl, inr, some, List, [], ◌∷◌, ◌++◌, arith, ltb, leb, Bool-cases,
  Option-cases,
}
use the_return_of_the_odysse.Base.Floats.{Float64, zero_f}
use the_return_of_the_odysse.Base.Maps.{lookup, insert, erase}
use the_return_of_the_odysse.Game.Entity.{Projectile}
use the_return_of_the_odysse.Game.Systems.{DamageRequest, DamageResolved, resolve_damage}
use the_return_of_the_odysse.Game.World.{Member, Foe, World}
use the_return_of_the_odysse.Game.World.Stages.{emit}
use the_return_of_the_odysse.Game.World.Damage.{
  hurt, destroy_projectile, apply_damage, apply_all, strike, hurt_player, hurt_monster, tell_damage,
}
use the_return_of_the_odysse.Game.World.Foes.{
  reloaded, shot, fire, holds_fire, shoot_all, move_all, aimed, moved, assign, halted,
}
use the_return_of_the_odysse.Game.World.Shots.{fly_on, fly_all}
use the_return_of_the_odysse.Game.World.Combat.{bury, destroy_all}
use the_return_of_the_odysse.Game.World.Members.{IsStable, AllOf, insert-AllOf, lookup-AllOf}

module _ {F : Type 0} ⦃f : Float64 F⦄ where
  open f use {same}

  -- The players are the same.
  pub bury-players : (ids : List ℕ) (w : World F) → (bury ids w).players ≡ w.players
  unfolding bury
  bury-players [] w = refl
  bury-players (id ∷ ids) w = elim (Option-cases (lookup id w.monsters)) [
    | inl e ↦ rw (e, bury) (bury-players ids w)
    | inr (m, e) ↦ elim (Bool-cases (same (m.monster).health zero_f)) [
      | inl h ↦ rw (e, bury, h) (bury-players ids (record w { monsters = erase id w.monsters }))
      | inr h ↦ rw (e, bury, h) (bury-players ids w)
    ]
  ]

  pub destroy_all-players : (ids : List ℕ) (w : World F) → (destroy_all ids w).players ≡ w.players
  unfolding destroy_all destroy_projectile emit
  destroy_all-players [] w = refl
  destroy_all-players (id ∷ ids) w = elim (Option-cases (lookup id w.projectiles)) [
    | inl e ↦ rw (e, destroy_all) (destroy_all-players ids w)
    | inr (p, e) ↦ rw (e, destroy_all) (destroy_all-players ids (destroy_projectile p w))
  ]

  fly_on-players :
      (id : ℕ) (p : Projectile F) (ms : List ℕ) (w : World F)
      → ((fly_on id p ms w).0).players ≡ w.players
  unfolding destroy_projectile emit
  fly_on-players id p ms w = ground arith

  pub move_all-monsters :
      (ps ids : List ℕ) (assigned : List (ℕ × ℕ)) (qs qs' : List (DamageRequest F)) (w w' : World F)
      → move_all ps ids assigned qs w ≡ some (w', qs')
      → (ms : List (ℕ × Foe F)) × (record w { monsters = ms } ≡ w')
  unfolding move_all
  move_all-monsters ps [] assigned qs qs' w w' h = (w.monsters, ground arith)
  move_all-monsters ps (id ∷ ids) assigned qs qs' w w' h =
      elim (Option-cases (lookup id w.monsters)) [
        | inl e ↦ move_all-monsters ps ids assigned qs qs' w w' (ground arith)
        | inr (m, e) ↦
            let aiming = aimed assigned ps w (halted m) in
            elim (Option-cases (moved id w aiming)) [
              | inl n ↦ ground arith
              | inr (r, n) ↦
                  let next = record w { monsters = insert id r.0 w.monsters } in
                  let (ms, k) =
                    move_all-monsters ps ids (assign aiming.target assigned) (qs ++ r.1) qs' next w'
                      (ground arith) in
                  (ms, k)
            ]
      ]

  pub fly_all-players :
      (ms ids : List ℕ) (qs : List (DamageRequest F)) (w : World F)
      → ((fly_all ms ids qs w).0).players ≡ w.players
  unfolding fly_all destroy_projectile emit
  fly_all-players ms [] qs w = refl
  fly_all-players ms (id ∷ ids) qs w = elim (Option-cases (lookup id w.projectiles)) [
    | inl e ↦ rw (e, fly_all) (fly_all-players ms ids qs w)
    | inr (p, e) ↦ elim (Bool-cases (leb p.expires_at_tick w.tick)) [
      | inl h ↦ rw (e, fly_all, h) (fly_all-players ms ids qs (destroy_projectile p w))
      | inr h ↦
          let flown = fly_on id p ms w in
          rw (e, fly_all, h)
            (fly_all-players ms ids (qs ++ flown.1) flown.0 ∙ fly_on-players id p ms w)
    ]
  ]

  module _ {P : Member F → Type 0} (stable : IsStable P) where
    pub shoot_all-AllOf :
        (ids : List ℕ) (w : World F) → AllOf P w.players → AllOf P (shoot_all ids w).players
    unfolding shoot_all emit
    shoot_all-AllOf [] w a = a
    shoot_all-AllOf (id ∷ ids) w a = elim (Option-cases (lookup id w.players)) [
      | inl e ↦ rw (e, shoot_all) (shoot_all-AllOf ids w a)
      | inr (m, e) ↦
          let p = lookup-AllOf P id m w.players e a in
          elim (Bool-cases (ltb 0 (m.player).reload_ticks_remaining)) [
            | inl r ↦
                rw (e, shoot_all, r)
                  (shoot_all-AllOf ids (record w { players = insert id (reloaded m) w.players })
                    (insert-AllOf P id (reloaded m) w.players (stable.loaded m p) a))
            | inr r ↦ elim (Bool-cases (holds_fire m w)) [
              | inl h ↦ rw (e, shoot_all, r, h) (shoot_all-AllOf ids w a)
              | inr h ↦
                  rw (e, shoot_all, r, h)
                    (shoot_all-AllOf ids (fire id m w)
                      (insert-AllOf P id (shot w.tick m) w.players (stable.fired w.tick m p) a))
            ]
          ]
    ]

    hurt_all :
        (q : DamageRequest F) (r : DamageResolved F) (w : World F)
        → AllOf P w.players
        → AllOf P (tell_damage q r w).players
    unfolding emit
    hurt_all q r w a = elim (Bool-cases r.killed) [ inl e ↦ rw e a | inr e ↦ rw e a ]

    strike-AllOf :
        (q : DamageRequest F) (h d : F) (change : DamageResolved F → World F) (w w' : World F)
        → strike q h d change w ≡ some w'
        → ((r : DamageResolved F) → AllOf P (change r).players)
        → AllOf P w.players
        → AllOf P w'.players
    strike-AllOf q h d change w w' same_ c a = elim (Option-cases (resolve_damage q.attack d h)) [
      | inl e ↦ ground arith
      | inr (r, e) ↦ elim (Bool-cases (same r.amount zero_f)) [
        | inl z ↦ let k : w ≡ w' = ground arith in subst (λ x. AllOf P x.players) k a
        | inr z ↦
            let k : tell_damage q r (change r) ≡ w' = ground arith in
            subst (λ x. AllOf P x.players) k (hurt_all q r (change r) (c r))
      ]
    ]

    apply_damage-AllOf :
        (q : DamageRequest F) (w w' : World F)
        → apply_damage q w ≡ some w'
        → AllOf P w.players
        → AllOf P w'.players
    unfolding apply_damage
    apply_damage-AllOf q w w' h a = elim (Bool-cases q.target_player) [
      | inl t ↦ elim (Option-cases (lookup q.target_id w.players)) [
        | inl e ↦ let k : w ≡ w' = ground arith in subst (λ x. AllOf P x.players) k a
        | inr (m, e) ↦ elim (Bool-cases (m.player).alive) [
          | inl l ↦
              strike-AllOf q (m.player).health ((m.player).current_stats).defense
                (λ r. hurt_player q.target_id r m w) w w' (ground arith)
                (λ r.
                  insert-AllOf P q.target_id (hurt r m) w.players
                    (stable.struck r m (lookup-AllOf P q.target_id m w.players e a)) a)
                a
          | inr l ↦ let k : w ≡ w' = ground arith in subst (λ x. AllOf P x.players) k a
        ]
      ]
      | inr t ↦ elim (Option-cases (lookup q.target_id w.monsters)) [
        | inl e ↦ let k : w ≡ w' = ground arith in subst (λ x. AllOf P x.players) k a
        | inr (m, e) ↦ elim (Bool-cases (same (m.monster).health zero_f)) [
          | inl z ↦ let k : w ≡ w' = ground arith in subst (λ x. AllOf P x.players) k a
          | inr z ↦
              strike-AllOf q (m.monster).health ((m.monster).current_stats).defense
                (λ r. hurt_monster q.target_id q.source_id r m w) w w' (ground arith) (λ r. a) a
        ]
      ]
    ]

    pub apply_all-AllOf :
        (qs : List (DamageRequest F)) (w w' : World F)
        → apply_all qs w ≡ some w'
        → AllOf P w.players
        → AllOf P w'.players
    unfolding apply_all
    apply_all-AllOf [] w w' h a =
        let k : w ≡ w' = ground arith in subst (λ x. AllOf P x.players) k a
    apply_all-AllOf (q ∷ qs) w w' h a = elim (Option-cases (apply_damage q w)) [
      | inl e ↦ ground arith
      | inr (v, e) ↦ apply_all-AllOf qs v w' (ground arith) (apply_damage-AllOf q w v e a)
    ]
