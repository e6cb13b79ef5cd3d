-- ===== src/Game/World/Members/Histories.antt =====
-- A predicate that every change of a player keeps holds of all players after any history of calls.
use the_return_of_the_odysse.Base.{
  ℕ, ◌≡◌, refl, subst, inl, inr, some, List, [], ◌∷◌, arith, Option-cases,
}
use the_return_of_the_odysse.Base.Floats.{Float64}
use the_return_of_the_odysse.Base.Results.{Result, ok, err}
use the_return_of_the_odysse.Game.World.{
  Error, Member, World, world_add_player, world_remove_player, world_apply_input, close_world,
  clear_world,
}
use the_return_of_the_odysse.Game.World.Stages.{start_stage, take_events}
use the_return_of_the_odysse.Game.World.Rewards.{start_reward, choose_reward, take_reward_updates}
use the_return_of_the_odysse.Game.World.Combat.{step_combat}
use the_return_of_the_odysse.Game.World.Ticks.{step_players, step}
use the_return_of_the_odysse.Game.World.Calls.{
  Call, adds, leaves, hears, ticks, starts, rewards, chooses, takes_events, takes_updates, closes,
  or_same, call, calls,
}
use the_return_of_the_odysse.Game.World.Members.{IsStable, AllOf}
use the_return_of_the_odysse.Game.World.Members.Ticking.{step_combat-AllOf, step_players-AllOf}
use the_return_of_the_odysse.Game.World.Members.Granting.{
  step_reward-AllOf, choose_reward-AllOf, start_reward-AllOf, start_stage-AllOf,
  world_add_player-AllOf, world_remove_player-AllOf, world_apply_input-AllOf,
}

module _ {F : Type 0} ⦃f : Float64 F⦄ {P : Member F → Type 0} (stable : IsStable P) where
  or_same-AllOf :
      (r : Result Error (World F)) (w w' : World F)
      → some (or_same r w) ≡ some w'
      → ((v : World F) → r ≡ ok v → AllOf P v.players)
      → AllOf P w.players
      → AllOf P w'.players
  or_same-AllOf (err e) w w' h next a =
      let k : w ≡ w' = ground arith in subst (λ x. AllOf P x.players) k a
  or_same-AllOf (ok v) w w' h next a =
      let k : v ≡ w' = ground arith in subst (λ x. AllOf P x.players) k (next v refl)

  step-AllOf :
      (now : ℕ) (w w' : World F) → step now w ≡ some w' → AllOf P w.players → AllOf P w'.players
  unfolding step
  step-AllOf now w w' h a =
      let a1 = step_players-AllOf stable now w a in
      elim (Option-cases (step_combat (step_players now w))) [
        | inl e ↦ ground arith
        | inr (v, e) ↦
            step_reward-AllOf stable v w' (ground arith)
              (step_combat-AllOf stable (step_players now w) v e a1)
      ]

  pub call-AllOf :
      (c : Call F) (w w' : World F) → call c w ≡ some w' → AllOf P w.players → AllOf P w'.players
  unfolding close_world clear_world take_events take_reward_updates
  call-AllOf (adds id) w w' h a =
      or_same-AllOf (world_add_player id w) w w' h (λ v e. world_add_player-AllOf stable id w v e a)
        a
  call-AllOf (leaves id) w w' h a =
      let k : world_remove_player id w ≡ w' = ground arith in
      subst (λ x. AllOf P x.players) k (world_remove_player-AllOf stable id w a)
  call-AllOf (hears id i at) w w' h a =
      or_same-AllOf (world_apply_input id i at w) w w' h
        (λ v e. world_apply_input-AllOf stable id i at w v e a) a
  call-AllOf (ticks now) w w' h a = step-AllOf now w w' h a
  call-AllOf (starts p) w w' h a =
      or_same-AllOf (start_stage p w) w w' h (λ v e. start_stage-AllOf stable p w v e a) a
  call-AllOf (rewards address c seed duration) w w' h a =
      or_same-AllOf (start_reward address c seed duration w) w w' h
        (λ v e. start_reward-AllOf stable address c seed duration w v e a) a
  call-AllOf (chooses player id) w w' h a =
      or_same-AllOf (choose_reward player id w) w w' h
        (λ v e. choose_reward-AllOf stable player id w v e a) a
  call-AllOf takes_events w w' h a =
      let k : (take_events w).1 ≡ w' = ground arith in subst (λ x. AllOf P x.players) k a
  call-AllOf takes_updates w w' h a =
      let k : (take_reward_updates w).1 ≡ w' = ground arith in subst (λ x. AllOf P x.players) k a
  call-AllOf closes w w' h a =
      let k : close_world w ≡ w' = ground arith in subst (λ x. AllOf P x.players) k tt

  pub calls-AllOf :
      (cs : List (Call F)) (w w' : World F)
      → calls cs w ≡ some w'
      → AllOf P w.players
      → AllOf P w'.players
  calls-AllOf [] w w' h a = let k : w ≡ w' = ground arith in subst (λ x. AllOf P x.players) k a
  calls-AllOf (c ∷ cs) w w' h a = elim (Option-cases (call c w)) [
    | inl e ↦ ground arith
    | inr (v, e) ↦ calls-AllOf cs v w' (ground arith) (call-AllOf c w v e a)
  ]
