-- ===== src/Game/World/Promises/Histories.antt =====
-- server/internal/game: rewards.go over any history of calls.
use the_return_of_the_odysse.Base.{
  ℕ, ◌<◌, ◌^◌, ◌≡◌, ◌≢◌, refl, sym, ap, subst, ◌∙◌, ◌⊎◌, inl, inr, true, false, not, some, List, [],
  ◌∷◌, arith, All, Option-cases,
}
use the_return_of_the_odysse.Base.Floats.{Float64}
use the_return_of_the_odysse.Base.Results.{Result, ok, err, Result-cases, passes}
use the_return_of_the_odysse.Game.Reward.{Round}
use the_return_of_the_odysse.Game.Stage.{
  StageState, waiting, reward, preparing_next_stage, closed, is_state, Plan,
}
use the_return_of_the_odysse.Game.Config.{valid_stage}
use the_return_of_the_odysse.Game.World.{
  Error, World, is_stage, world_add_player, world_remove_player, world_apply_input, close_world,
  clear_world,
}
use the_return_of_the_odysse.Game.World.Stages.{not_ready, start_stage, take_events}
use the_return_of_the_odysse.Game.World.Rewards.{start_reward, choose_reward, take_reward_updates}
use the_return_of_the_odysse.Game.World.Ticks.{step}
use the_return_of_the_odysse.Game.World.Calls.{
  Call, adds, leaves, hears, ticks, starts, rewards, chooses, takes_events, takes_updates, closes,
  or_same, call, calls,
}
use the_return_of_the_odysse.Game.World.Transitions.{is_state_eq, Edge, stays, offers}
use the_return_of_the_odysse.Game.World.Transitions.Edges.{call-Edge}
use the_return_of_the_odysse.Game.World.Promises.{IsReady}
use the_return_of_the_odysse.Game.World.Promises.Rounds.{
  start_reward-IsReady, choose_reward-IsReady,
}
use the_return_of_the_odysse.Game.World.Promises.Leaving.{world_remove_player-IsReady}
use the_return_of_the_odysse.Game.World.Promises.Keeping.{
  IsReady-same, step-IsReady, world_apply_input-IsReady,
}

-- The item IDs of a `StartReward` are not 0, and its duration is a 64-bit word.
abbrev pub IsReal : {F : Type 0} → Call F → Type 0
IsReal (rewards address c seed duration) = All (λ id. 0 < id) c.ids × (duration < 2 ^ 64)
IsReal _ = Unit

-- Only `StartReward` leads into the rewards.
abbrev IsOffer : {F : Type 0} → Call F → Type 0
IsOffer (rewards address c seed duration) = Unit
IsOffer _ = ⊥

into_rewards :
    {F : Type 0} {c : Call F} {a b : StageState}
    → Edge c a b
    → b ≡ reward
    → (a ≡ reward) ⊎ IsOffer c
into_rewards stays e = inl e
into_rewards offers e = inr tt
into_rewards _ e = cc

module _ {F : Type 0} ⦃f : Float64 F⦄ where
  -- In the rewards every open offer can be taken.
  abbrev IsPromised : World F → Type 0
  IsPromised w = is_stage reward w ≡ true → (r : Round) × IsReady w r

  or_same-IsPromised :
      (r : Result Error (World F)) (w w' : World F)
      → some (or_same r w) ≡ some w'
      → IsPromised w
      → ((v : World F) → r ≡ ok v → IsPromised v)
      → IsPromised w'
  or_same-IsPromised (err e) w w' h p next = let k : w ≡ w' = ground arith in subst IsPromised k p
  or_same-IsPromised (ok v) w w' h p next =
      let k : v ≡ w' = ground arith in subst IsPromised k (next v refl)

  -- A call keeps the promise in the rewards, since no other leads into them.
  kept :
      (c : Call F) (w w' : World F)
      → call c w ≡ some w'
      → ¬ IsOffer c
      → (is_stage reward w ≡ true → (r : Round) × IsReady w' r)
      → IsPromised w'
  kept c w w' h other keeps on =
      elim (into_rewards (call-Edge c w w' h) (is_state_eq (w'.stage).state reward on)) [
        | inl e ↦ keeps (ap (λ s. is_state s reward) e)
        | inr o ↦ absurd (other o)
      ]

  or_same-err :
      (r : Result Error (World F)) (w w' : World F) (x : Error)
      → r ≡ err x
      → some (or_same r w) ≡ some w'
      → w ≡ w'
  or_same-err (err y) w w' x e h = ground arith
  or_same-err (ok v) w w' x e h = cc

  or_same-ok :
      (r : Result Error (World F)) (w w' v : World F)
      → r ≡ ok v
      → some (or_same r w) ≡ some w'
      → v ≡ w'
  or_same-ok (err y) w w' v e h = cc
  or_same-ok (ok u) w w' v e h =
      let k : u ≡ w' = ground arith in let k' : u ≡ v = ground arith in sym k' ∙ k

  world_add_player-outside :
      (id : ℕ) (w w' : World F) → world_add_player id w ≡ ok w' → is_stage reward w ≢ true
  unfolding world_add_player
  world_add_player-outside id w w' h on =
      let e = is_state_eq (w.stage).state reward on in
      let off : is_stage waiting w ≡ false = ap (λ s. is_state s waiting) e in ground arith

  start_stage-outside :
      (p : Plan F) (w w' : World F) → start_stage p w ≡ ok w' → is_stage reward w ≢ true
  unfolding start_stage
  start_stage-outside p w w' h on =
      let (h0, h1) = passes (not (valid_stage p w.config)) _ _ h in
      let (h2, h3) = passes (not_ready w) _ _ h1 in
      let e = is_state_eq (w.stage).state reward on in
      let w1 : is_stage waiting w ≡ false = ap (λ s. is_state s waiting) e in
      let w2 : is_stage preparing_next_stage w ≡ false =
        ap (λ s. is_state s preparing_next_stage) e in
      ground arith

  call-IsPromised :
      (c : Call F) (w w' : World F) → IsReal c → IsPromised w → call c w ≡ some w' → IsPromised w'
  unfolding take_events take_reward_updates close_world clear_world
  call-IsPromised (adds id) w w' real p h =
      kept (adds id) w w' h (λ o. o)
        λ on.
          let (r, ready) = p on in
          elim (Result-cases (world_add_player id w)) [
            | inl (x, e) ↦
                let k = or_same-err (world_add_player id w) w w' x e h in
                (r, subst (λ x. IsReady x r) k ready)
            | inr (v, e) ↦ absurd (world_add_player-outside id w v e on)
          ]
  call-IsPromised (leaves id) w w' real p h =
      kept (leaves id) w w' h (λ o. o)
        λ on.
          let (r, ready) = p on in
          let k : world_remove_player id w ≡ w' = ground arith in
          let (r', ready') = world_remove_player-IsReady id w r ready in
          (r', subst (λ x. IsReady x r') k ready')
  call-IsPromised (hears id i at) w w' real p h =
      kept (hears id i at) w w' h (λ o. o)
        λ on.
          let (r, ready) = p on in
          elim (Result-cases (world_apply_input id i at w)) [
            | inl (x, e) ↦
                let k = or_same-err (world_apply_input id i at w) w w' x e h in
                (r, subst (λ x. IsReady x r) k ready)
            | inr (v, e) ↦
                let k = or_same-ok (world_apply_input id i at w) w w' v e h in
                (r, subst (λ x. IsReady x r) k (world_apply_input-IsReady id i at w v r e ready))
          ]
  call-IsPromised (ticks now) w w' real p h =
      kept (ticks now) w w' h (λ o. o)
        λ on.
          let (r, ready) = p on in
          let (v, r', done, ready') = step-IsReady now w r on ready in
          let both : some v ≡ some w' = sym done ∙ h in
          let k : v ≡ w' = ground arith in (r', subst (λ x. IsReady x r') k ready')
  call-IsPromised (starts plan) w w' real p h =
      kept (starts plan) w w' h (λ o. o)
        λ on. elim (Result-cases (start_stage plan w)) [
          | inl (x, e) ↦
              let (r, ready) = p on in
              let k = or_same-err (start_stage plan w) w w' x e h in
              (r, subst (λ x. IsReady x r) k ready)
          | inr (v, e) ↦ absurd (start_stage-outside plan w v e on)
        ]
  call-IsPromised (rewards address c seed duration) w w' real p h =
      or_same-IsPromised (start_reward address c seed duration w) w w' h p
        λ v e on. start_reward-IsReady address c seed duration w v real.0 real.1 e
  call-IsPromised (chooses player id) w w' real p h =
      kept (chooses player id) w w' h (λ o. o)
        λ on.
          let (r, ready) = p on in
          elim (Result-cases (choose_reward player id w)) [
            | inl (x, e) ↦
                let k = or_same-err (choose_reward player id w) w w' x e h in
                (r, subst (λ x. IsReady x r) k ready)
            | inr (v, e) ↦
                let k = or_same-ok (choose_reward player id w) w w' v e h in
                let (r', ready') = choose_reward-IsReady player id w v r ready e in
                (r', subst (λ x. IsReady x r') k ready')
          ]
  call-IsPromised takes_events w w' real p h =
      kept takes_events w w' h (λ o. o)
        λ on.
          let (r, ready) = p on in
          let k : (take_events w).1 ≡ w' = ground arith in
          (r, subst (λ x. IsReady x r) k (IsReady-same w (take_events w).1 r ready refl refl refl))
  call-IsPromised takes_updates w w' real p h =
      kept takes_updates w w' h (λ o. o)
        λ on.
          let (r, ready) = p on in
          let k : (take_reward_updates w).1 ≡ w' = ground arith in
          (
            r,
            subst (λ x. IsReady x r) k
                (IsReady-same w (take_reward_updates w).1 r ready refl refl refl),
          )
  call-IsPromised closes w w' real p h = λ on.
      let k : close_world w ≡ w' = ground arith in
      let e : closed ≡ (w'.stage).state = ap (λ (x : World F). (x.stage).state) k in
      let off : is_stage reward w' ≡ false = ap (λ s. is_state s reward) (sym e) in
      absurd (ground arith)

  calls-IsPromised :
      (cs : List (Call F)) (w w' : World F)
      → All IsReal cs
      → IsPromised w
      → calls cs w ≡ some w'
      → IsPromised w'
  calls-IsPromised [] w w' real p h = let k : w ≡ w' = ground arith in subst IsPromised k p
  calls-IsPromised (c ∷ cs) w w' real p h = elim (Option-cases (call c w)) [
    | inl e ↦ ground arith
    | inr (v, e) ↦ calls-IsPromised cs v w' real.1 (call-IsPromised c w v real.0 p e) (ground arith)
  ]

  -- In any history of calls on a world that starts outside the rewards, as every new world does, in
  -- which the item IDs of each `StartReward` are not 0 and its duration is a 64-bit word: whenever
  -- the stage is in its rewards, the next `Step` does not panic, whatever its time. The default of each
  -- open offer can be applied, however players have chosen, moved, spoken and left before.
  pub rewards_never_panic :
      (cs : List (Call F)) (w w' : World F) (now : ℕ)
      → is_stage reward w ≡ false
      → All IsReal cs
      → calls cs w ≡ some w'
      → is_stage reward w' ≡ true
      → (v : World F) × (step now w' ≡ some v)
  rewards_never_panic cs w w' now off real h on =
      let (r, ready) = calls-IsPromised cs w w' real (λ e. ground arith) h on in
      let (v, r', done, ready') = step-IsReady now w' r on ready in (v, done)
