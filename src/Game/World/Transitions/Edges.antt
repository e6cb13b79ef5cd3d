-- ===== src/Game/World/Transitions/Edges.antt =====
-- Every call moves the stage along an edge of the diagram.
use the_return_of_the_odysse.Base.{
  ℕ, ◌+◌, ◌≡◌, refl, sym, ap, subst, ◌∙◌, ◌⊎◌, inl, inr, true, false, not, ◌||◌, some, List, [],
  ◌∷◌, arith, ◌==◌, length, Bool-cases, Option-cases,
}
use the_return_of_the_odysse.Base.Words.{u64}
use the_return_of_the_odysse.Base.Floats.{Float64}
use the_return_of_the_odysse.Base.Maps.{lookup}
use the_return_of_the_odysse.Base.Results.{Result, ok, err, Result-cases, ok_parts, passes}
use the_return_of_the_odysse.Game.Equipment.{Catalog}
use the_return_of_the_odysse.Game.Reward.{
  Selection, offers_of, due_defaults, commit, complete, validate_choice,
}
use the_return_of_the_odysse.Game.Stage.{
  StageState, waiting, playing, stage_clear, reward, preparing_next_stage, failed, is_state, Plan,
}
use the_return_of_the_odysse.Game.Config.{valid_stage}
use the_return_of_the_odysse.Game.World.{
  Error, World, Input, is_stage, is_set, with_stage, ordered_ids, world_add_player,
  world_remove_player, world_apply_input, close_world, clear_world,
}
use the_return_of_the_odysse.Game.World.Ammo.{equipped, apply_to}
use the_return_of_the_odysse.Game.World.Pickups.{spawn_stage_pickups}
use the_return_of_the_odysse.Game.World.Stages.{
  emit, readied, open_stage, not_ready, wrong_index, start_stage, take_events,
}
use the_return_of_the_odysse.Game.World.Rewards.{
  from_round, emit_reward_update, open_reward, settle_selection, apply_reward_selection,
  choose_reward, start_reward, round_for, refuses_any, apply_defaults, step_reward,
  take_reward_updates,
}
use the_return_of_the_odysse.Game.World.Combat.{step_combat}
use the_return_of_the_odysse.Game.World.Ticks.{step_players, step}
use the_return_of_the_odysse.Game.World.Calls.{
  Call, adds, leaves, hears, ticks, starts, rewards, chooses, takes_events, takes_updates, closes,
  or_same, call,
}
use the_return_of_the_odysse.Game.World.Core.{
  Core, core-step_players, core-announce, core-spawn_all, core-spawn_stage_pickups,
}
use the_return_of_the_odysse.Game.World.Transitions.{
  is_state_eq, Edge, stays, begins, resumes, clears, loses, offers, last_choice, last_default,
  last_leaver, shuts,
}
use the_return_of_the_odysse.Game.World.Transitions.Endings.{step_combat-Ended}

abbrev state_in : {F : Type 0} → World F → StageState
state_in w = (w.stage).state

-- The state stays, or the rewards are all chosen.
abbrev Goes : StageState → StageState → Type 0
Goes a b = (a ≡ b) ⊎ (preparing_next_stage ≡ b)

Goes-trans : (a b c : StageState) → Goes a b → Goes b c → Goes a c
Goes-trans a b c (inl e) (inl g) = inl (e ∙ g)
Goes-trans a b c (inr e) (inl g) = inr (e ∙ g)
Goes-trans a b c p (inr g) = inr g

module _ {F : Type 0} ⦃f : Float64 F⦄ where
  apply_reward_selection-Goes :
      (s : Selection) (at : ℕ) (w w' : World F)
      → apply_reward_selection s at w ≡ ok w'
      → Goes (state_in w) (state_in w')
  unfolding apply_reward_selection emit_reward_update
  apply_reward_selection-Goes s at w w' h = elim (Option-cases (lookup s.player_id w.players)) [
    | inl e ↦ ground arith
    | inr (m, e) ↦ elim (Result-cases (apply_to w.reward_catalog s.equipment_id m)) [
      | inl (x, n) ↦ ground arith
      | inr ((l, st, v), n) ↦ elim (Result-cases (from_round (commit w.reward_round s))) [
        | inl (x, c) ↦ ground arith
        | inr (r, c) ↦
            let worn = equipped w.reward_catalog l st v m in
            let k : settle_selection s at worn r w ≡ w' = ground arith in
            elim (Bool-cases (complete (some r))) [
              | inl d ↦ inr (ground arith)
              | inr d ↦ inl (ground arith)
            ]
      ]
    ]
  ]

  apply_defaults-Goes :
      (ss : List Selection) (w w' : World F)
      → apply_defaults ss w ≡ some w'
      → Goes (state_in w) (state_in w')
  unfolding apply_defaults
  apply_defaults-Goes [] w w' h = inl (ground arith)
  apply_defaults-Goes (s ∷ ss) w w' h = elim (Result-cases (apply_reward_selection s w.tick w)) [
    | inl (x, e) ↦ ground arith
    | inr (v, e) ↦
        Goes-trans (state_in w) (state_in v) (state_in w')
          (apply_reward_selection-Goes s w.tick w v e) (apply_defaults-Goes ss v w' (ground arith))
  ]

  -- An edge into a state that is only known up to an equation.
  retarget : {c : Call F} {a b b' : StageState} → b ≡ b' → Edge c a b → Edge c a b'
  retarget {c} {a} e d = subst (Edge c a) e d

  restart : {c : Call F} {a a' b : StageState} → a ≡ a' → Edge c a b → Edge c a' b
  restart {c} {b = b} e d = subst (λ x. Edge c x b) e d

  step_reward-Edge :
      (now : ℕ) (w w' : World F)
      → step_reward w ≡ some w'
      → Edge {F = F} (ticks now) (state_in w) (state_in w')
  unfolding step_reward
  step_reward-Edge now w w' h = elim (Bool-cases (is_stage reward w)) [
    | inl e ↦ elim (Option-cases (due_defaults w.reward_round w.tick)) [
      | inl d ↦ ground arith
      | inr (ss, d) ↦ elim (apply_defaults-Goes ss w w' (ground arith)) [
        | inl g ↦ retarget g stays
        | inr g ↦ retarget g (restart (sym (is_state_eq (state_in w) reward e)) last_default)
      ]
    ]
    | inr e ↦ let k : w ≡ w' = ground arith in retarget (ap state_in k) stays
  ]

  -- Outside the rewards a tick ends with the combat.
  step_reward-idle :
      (w w' : World F) (s : StageState)
      → step_reward w ≡ some w'
      → state_in w ≡ s
      → is_state s reward ≡ false
      → s ≡ state_in w'
  unfolding step_reward
  step_reward-idle w w' s h e n =
      let off : is_stage reward w ≡ false = ap (λ x. is_state x reward) e ∙ n in
      let k : w ≡ w' = ground arith in sym e ∙ ap state_in k

  step-Edge :
      (now : ℕ) (w w' : World F)
      → step now w ≡ some w'
      → Edge {F = F} (ticks now) (state_in w) (state_in w')
  unfolding step
  step-Edge now w w' h =
      let w1 = step_players now w in
      let same : state_in w1 ≡ state_in w =
        ap (λ (c : Core F). (c.stage).state) (core-step_players now w) in
      elim (Option-cases (step_combat w1)) [
        | inl e ↦ ground arith
        | inr (v, e) ↦
            let rest : step_reward v ≡ some w' = ground arith in
            elim (step_combat-Ended w1 v e) [
              | inl (off, k) ↦ restart (sym (ap state_in k) ∙ same) (step_reward-Edge now v w' rest)
              | inr (on, inl (lost, none_alive, ended, done)) ↦
                  restart (sym on ∙ same)
                    (retarget (step_reward-idle v w' failed rest lost refl) loses)
              | inr (on, inr (inl (won, alive, empty, summary))) ↦
                  restart (sym on ∙ same)
                    (retarget (step_reward-idle v w' stage_clear rest won refl) clears)
              | inr (on, inr (inr (goes, alive, left, done))) ↦
                  restart (sym on ∙ same)
                    (retarget (step_reward-idle v w' playing rest (goes ∙ on) refl) stays)
            ]
      ]

  world_add_player-state :
      (id : ℕ) (w w' : World F) → world_add_player id w ≡ ok w' → state_in w ≡ state_in w'
  unfolding world_add_player
  world_add_player-state id w w' h = ground arith

  world_apply_input-state :
      (id : ℕ) (i : Input F) (at : ℕ) (w w' : World F)
      → world_apply_input id i at w ≡ ok w'
      → state_in w ≡ state_in w'
  unfolding world_apply_input
  world_apply_input-state id i at w w' h = ground arith

  world_remove_player-Goes :
      (id : ℕ) (w : World F) → Goes (state_in w) (state_in (world_remove_player id w))
  unfolding world_remove_player
  world_remove_player-Goes id w = ground arith

  world_remove_player-state :
      (id : ℕ) (w : World F)
      → is_stage reward w ≡ false
      → state_in w ≡ state_in (world_remove_player id w)
  unfolding world_remove_player
  world_remove_player-state id w e = ground arith

  world_remove_player-Edge :
      (id : ℕ) (w : World F)
      → Edge {F = F} (leaves id) (state_in w) (state_in (world_remove_player id w))
  world_remove_player-Edge id w = elim (Bool-cases (is_stage reward w)) [
    | inl e ↦ elim (world_remove_player-Goes id w) [
      | inl g ↦ retarget g stays
      | inr g ↦ retarget g (restart (sym (is_state_eq (state_in w) reward e)) last_leaver)
    ]
    | inr e ↦ retarget (world_remove_player-state id w e) stays
  ]

  open_stage-playing : (p : Plan F) (w : World F) → playing ≡ state_in (open_stage p w)
  unfolding open_stage readied emit
  open_stage-playing p w =
      let stocked = spawn_stage_pickups p.index (readied p w) in
      sym (
        ap (λ (c : Core F). (c.stage).state)
          (core-spawn_all p.monsters stocked ∙ core-spawn_stage_pickups p.index (readied p w)))

  start_stage-Edge :
      (p : Plan F) (w w' : World F)
      → start_stage p w ≡ ok w'
      → Edge (starts p) (state_in w) (state_in w')
  unfolding start_stage
  start_stage-Edge p w w' h =
      let (h0, h1) = passes (not (valid_stage p w.config)) _ _ h in
      let (h2, h3) = passes (not_ready w) _ _ h1 in
      let (h4, h5) = passes (wrong_index p w) _ _ h3 in
      let k : open_stage p w ≡ w' = ground arith in
      let on : playing ≡ state_in w' = open_stage-playing p w ∙ ap state_in k in
      elim (Bool-cases (is_stage waiting w)) [
        | inl e ↦ retarget on (restart (sym (is_state_eq (state_in w) waiting e)) begins)
        | inr e ↦
            let e' : is_stage preparing_next_stage w ≡ true = ground arith in
            retarget on (restart (sym (is_state_eq (state_in w) preparing_next_stage e')) resumes)
      ]

  start_reward-Edge :
      (address : ℕ) (c : Catalog F) (seed duration : ℕ) (w w' : World F)
      → start_reward address c seed duration w ≡ ok w'
      → Edge (rewards address c seed duration) (state_in w) (state_in w')
  unfolding start_reward
  start_reward-Edge address c seed duration w w' h =
      let (h0, h1) = passes (not (is_stage stage_clear w) || is_set w.reward_round) _ _ h in
      let (h2, h3) = passes (length c.ids == 0) _ _ h1 in
      let (h4, h5) = passes (refuses_any c c.ids (ordered_ids w.players) w.players) _ _ h3 in
      let (r, h6, h7) = ok_parts (from_round (round_for address c seed duration w)) _ h5 in
      let k : open_reward c r w ≡ w' = ground arith in
      let e : is_stage stage_clear w ≡ true = ground arith in
      let opened = with_stage reward (record w { reward_catalog = c; reward_round = some r }) in
      let on : reward ≡ state_in w' =
        sym (ap (λ (x : Core F). (x.stage).state) (core-announce (offers_of (some r)) opened))
        ∙ ap state_in k in
      retarget on (restart (sym (is_state_eq (state_in w) stage_clear e)) offers)

  choose_reward-Edge :
      (player id : ℕ) (w w' : World F)
      → choose_reward player id w ≡ ok w'
      → Edge {F = F} (chooses player id) (state_in w) (state_in w')
  unfolding choose_reward
  choose_reward-Edge player id w w' h =
      let (h0, h1) = passes (not (is_stage reward w) || not (is_set w.reward_round)) _ _ h in
      let (s, h2, h3) =
        ok_parts (from_round (validate_choice w.reward_round player id w.tick)) _ h1 in
      let e : is_stage reward w ≡ true = ground arith in
      elim (apply_reward_selection-Goes s (u64 (w.tick + 1)) w w' h3) [
        | inl g ↦ retarget g stays
        | inr g ↦ retarget g (restart (sym (is_state_eq (state_in w) reward e)) last_choice)
      ]

  or_same-Edge :
      (c : Call F) (r : Result Error (World F)) (w w' : World F)
      → some (or_same r w) ≡ some w'
      → ((v : World F) → r ≡ ok v → Edge c (state_in w) (state_in v))
      → Edge c (state_in w) (state_in w')
  or_same-Edge c (err e) w w' h next =
      let k : w ≡ w' = ground arith in retarget (ap state_in k) stays
  or_same-Edge c (ok v) w w' h next =
      let k : v ≡ w' = ground arith in retarget (ap state_in k) (next v refl)

  -- Every call that does not panic moves the stage along an edge of the diagram or leaves its state:
  -- waiting to playing and preparing to playing by the start of a stage, playing to cleared or failed
  -- by a tick, cleared to reward by the start of the rewards, reward to preparing by a choice, a
  -- tick or a player who leaves, and any state to closed by closing.
  pub call-Edge :
      (c : Call F) (w w' : World F) → call c w ≡ some w' → Edge c (w.stage).state (w'.stage).state
  unfolding close_world clear_world take_events take_reward_updates
  call-Edge (adds id) w w' h =
      or_same-Edge (adds id) (world_add_player id w) w w' h
        (λ v e. retarget (world_add_player-state id w v e) stays)
  call-Edge (leaves id) w w' h =
      let k : world_remove_player id w ≡ w' = ground arith in
      retarget (ap state_in k) (world_remove_player-Edge id w)
  call-Edge (hears id i at) w w' h =
      or_same-Edge (hears id i at) (world_apply_input id i at w) w w' h
        (λ v e. retarget (world_apply_input-state id i at w v e) stays)
  call-Edge (ticks now) w w' h = step-Edge now w w' h
  call-Edge (starts p) w w' h =
      or_same-Edge (starts p) (start_stage p w) w w' h (start_stage-Edge p w)
  call-Edge (rewards address c seed duration) w w' h =
      or_same-Edge (rewards address c seed duration) (start_reward address c seed duration w) w w' h
        (start_reward-Edge address c seed duration w)
  call-Edge (chooses player id) w w' h =
      or_same-Edge (chooses player id) (choose_reward player id w) w w' h
        (choose_reward-Edge player id w)
  call-Edge takes_events w w' h =
      let k : (take_events w).1 ≡ w' = ground arith in retarget (ap state_in k) stays
  call-Edge takes_updates w w' h =
      let k : (take_reward_updates w).1 ≡ w' = ground arith in retarget (ap state_in k) stays
  call-Edge closes w w' h =
      let k : close_world w ≡ w' = ground arith in retarget (ap state_in k) shuts
