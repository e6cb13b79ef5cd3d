-- ===== src/Game/World/Members/Granting.antt =====
-- What the calls between the ticks do to all players.
use the_return_of_the_odysse.Base.{
  ℕ, ◌+◌, ◌≡◌, refl, sym, subst, inl, inr, not, ◌&&◌, ◌||◌, some, List, [], ◌∷◌, arith, leb, ◌==◌,
  length, Bool-cases, Option-cases,
}
use the_return_of_the_odysse.Base.Words.{u64}
use the_return_of_the_odysse.Base.Floats.{Float64}
use the_return_of_the_odysse.Base.Maps.{lookup, insert, erase}
use the_return_of_the_odysse.Base.Results.{ok, Result-cases, ok_parts, passes}
use the_return_of_the_odysse.Game.Equipment.{Catalog}
use the_return_of_the_odysse.Game.Reward.{
  Offer, Round, Selection, offers_of, due_defaults, commit, complete, validate_choice,
  remove_player,
}
use the_return_of_the_odysse.Game.Stage.{waiting, reward, stage_clear, Spawn, Plan}
use the_return_of_the_odysse.Game.Config.{valid_stage}
use the_return_of_the_odysse.Game.World.{
  Member, World, Input, is_stage, is_set, ordered_ids, valid_input, first_world_entity_id,
  with_stage, new_member, world_add_player, world_remove_player, world_apply_input, change_all,
}
use the_return_of_the_odysse.Game.World.Ammo.{equipped, apply_to}
use the_return_of_the_odysse.Game.World.Pickups.{spawn_stage_pickups}
use the_return_of_the_odysse.Game.World.Stages.{
  emit, spawn_all, returned, refilled, readied, open_stage, not_ready, wrong_index, start_stage,
}
use the_return_of_the_odysse.Game.World.Rewards.{
  from_round, emit_reward_update, announce, open_reward, refuses_any, round_for, settle_selection,
  apply_reward_selection, choose_reward, start_reward, apply_defaults, step_reward,
}
use the_return_of_the_odysse.Game.World.Members.{
  IsStable, AllOf, insert-AllOf, erase-AllOf, lookup-AllOf, change_all-AllOf, hearing,
}

module _ {F : Type 0} ⦃f : Float64 F⦄ where
  announce-players : (os : List Offer) (w : World F) → (announce os w).players ≡ w.players
  unfolding announce emit_reward_update
  announce-players [] w = refl
  announce-players (o ∷ os) w = announce-players os _

  spawn_all-players : (ss : List (Spawn F)) (w : World F) → (spawn_all ss w).players ≡ w.players
  unfolding spawn_all
  spawn_all-players [] w = refl
  spawn_all-players (s ∷ ss) w = spawn_all-players ss _

  spawn_stage_pickups-players :
      (i : ℕ) (w : World F) → (spawn_stage_pickups i w).players ≡ w.players
  unfolding spawn_stage_pickups
  spawn_stage_pickups-players i w = ground arith

  module _ {P : Member F → Type 0} (stable : IsStable P) where
    settle_selection-AllOf :
        (s : Selection) (at : ℕ) (m : Member F) (r : Round) (w : World F)
        → P m
        → AllOf P w.players
        → AllOf P (settle_selection s at m r w).players
    unfolding emit_reward_update
    settle_selection-AllOf s at m r w good a =
        let a' = insert-AllOf P s.player_id m w.players good a in
        elim (Bool-cases (complete (some r))) [ inl e ↦ rw e a' | inr e ↦ rw e a' ]

    pub apply_reward_selection-AllOf :
        (s : Selection) (at : ℕ) (w w' : World F)
        → apply_reward_selection s at w ≡ ok w'
        → AllOf P w.players
        → AllOf P w'.players
    unfolding apply_reward_selection
    apply_reward_selection-AllOf s at w w' h a =
        elim (Option-cases (lookup s.player_id w.players)) [
          | inl e ↦ ground arith
          | inr (m, e) ↦ elim (Result-cases (apply_to w.reward_catalog s.equipment_id m)) [
            | inl (x, n) ↦ ground arith
            | inr ((l, st, v), n) ↦ elim (Result-cases (from_round (commit w.reward_round s))) [
              | inl (x, c) ↦ ground arith
              | inr (r, c) ↦
                  let worn = equipped w.reward_catalog l st v m in
                  let k : settle_selection s at worn r w ≡ w' = ground arith in
                  let good = lookup-AllOf P s.player_id m w.players e a in
                  subst (λ x. AllOf P x.players) k
                    (settle_selection-AllOf s at worn r w
                      (stable.armed w.reward_catalog l st v m good) a)
            ]
          ]
        ]

    apply_defaults-AllOf :
        (ss : List Selection) (w w' : World F)
        → apply_defaults ss w ≡ some w'
        → AllOf P w.players
        → AllOf P w'.players
    unfolding apply_defaults
    apply_defaults-AllOf [] w w' h a =
        let k : w ≡ w' = ground arith in subst (λ x. AllOf P x.players) k a
    apply_defaults-AllOf (s ∷ ss) w w' h a =
        elim (Result-cases (apply_reward_selection s w.tick w)) [
          | inl (x, e) ↦ ground arith
          | inr (v, e) ↦
              apply_defaults-AllOf ss v w' (ground arith)
                (apply_reward_selection-AllOf s w.tick w v e a)
        ]

    pub step_reward-AllOf :
        (w w' : World F) → step_reward w ≡ some w' → AllOf P w.players → AllOf P w'.players
    unfolding step_reward
    step_reward-AllOf w w' h a = elim (Bool-cases (is_stage reward w)) [
      | inl e ↦ elim (Option-cases (due_defaults w.reward_round w.tick)) [
        | inl d ↦ ground arith
        | inr (ss, d) ↦ apply_defaults-AllOf ss w w' (ground arith) a
      ]
      | inr e ↦ let k : w ≡ w' = ground arith in subst (λ x. AllOf P x.players) k a
    ]

    pub choose_reward-AllOf :
        (player id : ℕ) (w w' : World F)
        → choose_reward player id w ≡ ok w'
        → AllOf P w.players
        → AllOf P w'.players
    unfolding choose_reward
    choose_reward-AllOf player id w w' h a =
        let (h0, h1) = passes (not (is_stage reward w) || not (is_set w.reward_round)) _ _ h in
        let (s, h2, h3) =
          ok_parts (from_round (validate_choice w.reward_round player id w.tick)) _ h1 in
        apply_reward_selection-AllOf s (u64 (w.tick + 1)) w w' h3 a

    pub start_reward-AllOf :
        (address : ℕ) (c : Catalog F) (seed duration : ℕ) (w w' : World F)
        → start_reward address c seed duration w ≡ ok w'
        → AllOf P w.players
        → AllOf P w'.players
    unfolding start_reward
    start_reward-AllOf address c seed duration w w' h a =
        let (h0, h1) = passes (not (is_stage stage_clear w) || is_set w.reward_round) _ _ h in
        let (h2, h3) = passes (length c.ids == 0) _ _ h1 in
        let (h4, h5) = passes (refuses_any c c.ids (ordered_ids w.players) w.players) _ _ h3 in
        let (r, h6, h7) = ok_parts (from_round (round_for address c seed duration w)) _ h5 in
        let k : open_reward c r w ≡ w' = ground arith in
        let opened = with_stage reward (record w { reward_catalog = c; reward_round = some r }) in
        subst (λ x. AllOf P x.players) k
          (subst (AllOf P) (sym (announce-players (offers_of (some r)) opened)) a)

    open_stage-AllOf :
        (p : Plan F) (w : World F) → AllOf P w.players → AllOf P (open_stage p w).players
    unfolding open_stage readied emit
    open_stage-AllOf p w a = elim (Bool-cases (is_stage waiting w)) [
      | inl e ↦
          rw (e, spawn_all-players, spawn_stage_pickups-players)
            (change_all-AllOf P refilled w.players stable.filled a)
      | inr e ↦
          rw (e, spawn_all-players, spawn_stage_pickups-players)
            (change_all-AllOf P refilled (change_all (returned (w.config).spawn) w.players)
              stable.filled
              (change_all-AllOf P (returned (w.config).spawn) w.players
                (stable.back (w.config).spawn) a))
    ]

    pub start_stage-AllOf :
        (p : Plan F) (w w' : World F)
        → start_stage p w ≡ ok w'
        → AllOf P w.players
        → AllOf P w'.players
    unfolding start_stage
    start_stage-AllOf p w w' h a =
        let (h0, h1) = passes (not (valid_stage p w.config)) _ _ h in
        let (h2, h3) = passes (not_ready w) _ _ h1 in
        let (h4, h5) = passes (wrong_index p w) _ _ h3 in
        let k : open_stage p w ≡ w' = ground arith in
        subst (λ x. AllOf P x.players) k (open_stage-AllOf p w a)

    pub world_add_player-AllOf :
        (id : ℕ) (w w' : World F)
        → world_add_player id w ≡ ok w'
        → AllOf P w.players
        → AllOf P w'.players
    unfolding world_add_player
    world_add_player-AllOf id w w' h a =
        let (h0, h1) = passes (id == 0 || leb first_world_entity_id id) _ _ h in
        let (h2, h3) = passes (is_set (lookup id w.players)) _ _ h1 in
        let (h4, h5) = passes (leb (w.config).capacity (length w.players)) _ _ h3 in
        let (h6, h7) = passes (not (is_stage waiting w)) _ _ h5 in
        let k : record w {
          departed = erase id w.departed;
          players = insert id (new_member id w.config) w.players;
        }
            ≡ w' =
          ground arith in
        subst (λ x. AllOf P x.players) k
          (insert-AllOf P id (new_member id w.config) w.players (stable.joined id w.config) a)

    pub world_remove_player-AllOf :
        (id : ℕ) (w : World F) → AllOf P w.players → AllOf P (world_remove_player id w).players
    unfolding world_remove_player
    world_remove_player-AllOf id w a =
        let (round, removed) = remove_player w.reward_round id in
        let a' = erase-AllOf P id w.players a in
        elim (Bool-cases (
          removed
          && is_stage reward w
          && not (length (erase id w.players) == 0)
          && complete round)) [ inl e ↦ rw e a' | inr e ↦ rw e a' ]

    pub world_apply_input-AllOf :
        (id : ℕ) (i : Input F) (at : ℕ) (w w' : World F)
        → world_apply_input id i at w ≡ ok w'
        → AllOf P w.players
        → AllOf P w'.players
    unfolding world_apply_input
    world_apply_input-AllOf id i at w w' h a =
        let (h0, h1) = passes (not (valid_input i)) _ _ h in
        elim (Option-cases (lookup id w.players)) [
          | inl e ↦ ground arith
          | inr (m, e) ↦ elim (Bool-cases (leb i.seq (m.input).seq)) [
            | inl late ↦ ground arith
            | inr late ↦
                let k : record w { players = insert id (hearing i at m) w.players } ≡ w' =
                  ground arith in
                subst (λ x. AllOf P x.players) k
                  (insert-AllOf P id (hearing i at m) w.players
                    (stable.heard i at m late (lookup-AllOf P id m w.players e a)) a)
          ]
        ]
