-- ===== src/Game/World/Transitions/Endings.antt =====
-- server/internal/game/combat.go: how a tick of combat ends.
use the_return_of_the_odysse.Base.{
  ℕ, ◌<◌, ◌≡◌, refl, sym, ap, subst, ◌∙◌, ◌⊎◌, inl, inr, true, false, some, List, [], ◌∷◌, ◌++◌,
  arith, ◌==◌, length, Bool-cases, Option-cases,
}
use the_return_of_the_odysse.Base.Floats.{Float64}
use the_return_of_the_odysse.Base.Maps.{lookup}
use the_return_of_the_odysse.Game.Stage.{playing, stage_clear, failed}
use the_return_of_the_odysse.Game.World.{
  Foe, StageSummary, World, ordered_ids, change_all, is_stage,
}
use the_return_of_the_odysse.Game.World.Performance.{freeze_performance}
use the_return_of_the_odysse.Game.World.Stages.{emit, living}
use the_return_of_the_odysse.Game.World.Damage.{destroy_projectile, apply_all}
use the_return_of_the_odysse.Game.World.Foes.{shoot_all, move_all}
use the_return_of_the_odysse.Game.World.Shots.{fly_all}
use the_return_of_the_odysse.Game.World.Combat.{
  bury, destroy_all, counted, still, lose_stage, clear_stage, judge, fight, at_rest, step_combat,
}
use the_return_of_the_odysse.Game.World.Core.{
  Core, core, core-still, core-shoot_all, core-move_all, core-fly_all, core-apply_all, core-bury,
}
use the_return_of_the_odysse.Game.World.Members.Ticking.{still-players}
use the_return_of_the_odysse.Game.World.Transitions.{is_state_eq}

module _ {F : Type 0} ⦃f : Float64 F⦄ where
  destroy_all-monsters : (ids : List ℕ) (w : World F) → (destroy_all ids w).monsters ≡ w.monsters
  unfolding destroy_all destroy_projectile emit
  destroy_all-monsters [] w = refl
  destroy_all-monsters (id ∷ ids) w = elim (Option-cases (lookup id w.projectiles)) [
    | inl e ↦ rw (e, destroy_all) (destroy_all-monsters ids w)
    | inr (p, e) ↦ rw (e, destroy_all) (destroy_all-monsters ids (destroy_projectile p w))
  ]

  still-monsters : (w : World F) → (still w).monsters ≡ change_all at_rest w.monsters
  unfolding still
  still-monsters w =
      destroy_all-monsters (ordered_ids w.projectiles)
        (record w { monsters = change_all at_rest w.monsters })

  none_left : (ms : List (ℕ × Foe F)) → (length ms == 0) ≡ true → change_all at_rest ms ≡ []
  none_left [] h = refl
  none_left (m ∷ ms) h = ground arith

  -- After a tick of combat in a world with the core `w`, with the world `w'`: the team is lost, exactly if no player lives,
  -- and the run ends at this tick; or the stage is cleared, exactly if a player lives and no monster is
  -- left, and is entered among the completed stages with this tick; or both sides go on.
  abbrev pub Ended : Core F → World F → Type 0
  Ended w w' =
      (((w'.stage).state ≡ failed)
        × (living w'.players ≡ 0)
        × (w'.run_ended_at_tick ≡ w.tick)
        × (w'.completed_stages ≡ w.completed_stages))
      ⊎ ((((w'.stage).state ≡ stage_clear)
            × (0 < living w'.players)
            × (w'.monsters ≡ [])
            × ((s : StageSummary F) × (w'.completed_stages ≡ w.completed_stages ++ s ∷ [])
                × (s.clear_tick ≡ w.tick)
                × (s.index ≡ (w.current_plan).index)))
          ⊎ (((w'.stage).state ≡ (w.stage).state)
              × (0 < living w'.players)
              × (0 < length w'.monsters)
              × (w'.completed_stages ≡ w.completed_stages)))

  lose_stage-Ended :
      (w : World F) → (living w.players == 0) ≡ true → Ended (core w) (still (lose_stage w))
  unfolding lose_stage emit
  lose_stage-Ended w none_alive =
      let c = core-still (lose_stage w) in
      inl (
        ap (λ (x : Core F). (x.stage).state) c,
        ap living (still-players (lose_stage w)) ∙ ground arith,
        ap (λ (x : Core F). x.run_ended_at_tick) c,
        ap (λ (x : Core F). x.completed_stages) c,
      )

  clear_stage-Ended :
      (w : World F)
      → (living w.players == 0) ≡ false
      → (length w.monsters == 0) ≡ true
      → Ended (core w) (still (clear_stage w))
  unfolding clear_stage freeze_performance emit
  clear_stage-Ended w alive empty =
      let c = core-still (clear_stage w) in
      let lives : 0 < living w.players = ground arith in
      inr (
        inl (
          ap (λ (x : Core F). (x.stage).state) c,
          subst (λ n. 0 < n) (sym (ap living (still-players (clear_stage w)))) lives,
          still-monsters (clear_stage w) ∙ none_left w.monsters empty,
          (_, ap (λ (x : Core F). x.completed_stages) c, refl, refl),
        ))

  pub judge-Ended : (w : World F) → Ended (core w) (judge w)
  unfolding judge
  judge-Ended w = elim (Bool-cases (living w.players == 0)) [
    | inl e ↦
        let k : still (lose_stage w) ≡ judge w = ground arith in
        subst (Ended (core w)) k (lose_stage-Ended w e)
    | inr e ↦ elim (Bool-cases (length w.monsters == 0)) [
      | inl z ↦
          let k : still (clear_stage w) ≡ judge w = ground arith in
          subst (Ended (core w)) k (clear_stage-Ended w e z)
      | inr z ↦
          let k : w ≡ judge w = ground arith in
          subst (Ended (core w)) k (inr (inr (refl, ground arith, ground arith, refl)))
    ]
  ]

  fight-Ended : (w w' : World F) → fight w ≡ some w' → Ended (core w) w'
  unfolding fight
  fight-Ended w w' h =
      let ms = ordered_ids w.monsters in
      let ps = ordered_ids w.players in
      let shot_at = shoot_all ps w in
      elim (Option-cases (move_all ps ms [] [] shot_at)) [
        | inl e ↦ ground arith
        | inr ((acted, qs), e) ↦
            let flight = fly_all ms (ordered_ids acted.projectiles) qs acted in
            elim (Option-cases (apply_all flight.1 flight.0)) [
              | inl n ↦ ground arith
              | inr (hit, n) ↦
                  let k : judge (counted (bury ms hit)) ≡ w' = ground arith in
                  let same : core (bury ms hit) ≡ core w =
                    core-bury ms hit
                    ∙ core-apply_all flight.1 flight.0 hit n
                    ∙ core-fly_all ms (ordered_ids acted.projectiles) qs acted
                    ∙ core-move_all ps ms [] [] qs shot_at acted e
                    ∙ core-shoot_all ps w in
                  subst (Ended (core w)) k (
                    subst (λ c. Ended c (judge (counted (bury ms hit)))) same
                      (judge-Ended (counted (bury ms hit))))
            ]
      ]

  -- A tick of combat outside a played stage changes nothing. In a played stage one of three things
  -- holds afterwards. No player lives: the stage is failed, also if the last monster fell in the same
  -- tick, the run ends at this tick and no stage is entered as completed. Or a player lives and no
  -- monster is left: the stage is cleared, and one summary with this tick and the plan's index is
  -- added to the completed stages. Or a player and a monster are left: the stage goes on.
  pub step_combat-Ended :
      (w w' : World F)
      → step_combat w ≡ some w'
      → ((is_stage playing w ≡ false) × (w ≡ w'))
        ⊎ (((w.stage).state ≡ playing) × Ended (core w) w')
  unfolding step_combat
  step_combat-Ended w w' h = elim (Bool-cases (is_stage playing w)) [
    | inl e ↦ inr (is_state_eq (w.stage).state playing e, fight-Ended w w' (ground arith))
    | inr e ↦ inl (e, ground arith)
  ]
