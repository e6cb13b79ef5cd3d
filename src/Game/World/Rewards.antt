-- ===== src/Game/World/Rewards.antt =====
-- server/internal/game/rewards.go: the rewards between two stages. The address of a new round is an
-- argument.
use the_return_of_the_odysse.Base.{
  ℕ, ◌+◌, Bool, true, false, not, ◌||◌, Option, none, some, List, [], ◌∷◌, ◌++◌, leb, ◌==◌,
  if◌then◌else◌, length, min,
}
use the_return_of_the_odysse.Base.Words.{u64}
use the_return_of_the_odysse.Base.Floats.{Float64}
use the_return_of_the_odysse.Base.Maps.{lookup, insert}
use the_return_of_the_odysse.Base.Results.{Result, ok, err, ◌>>=◌, ◌>>◌, reject_if}
use the_return_of_the_odysse.Game.Equipment.{Catalog}
use the_return_of_the_odysse.Game.Reward.{
  Offer, Round, Selection, max_options, new_round, offers_of, validate_choice, due_defaults, commit,
  complete,
}
use the_return_of_the_odysse.Game.Reward as Reward
use the_return_of_the_odysse.Game.Stage.{stage_clear, reward, preparing_next_stage}
use the_return_of_the_odysse.Game.World.{
  Error, reward_state, empty_catalog, cannot_apply, player_missing, round_error, Member,
  RewardUpdate, reward_options_available, reward_selection_applied, World, ordered_ids, is_stage,
  with_stage, max_pending_events, is_set,
}
use the_return_of_the_odysse.Game.World.Ammo.{apply_to, equipped}

-- `fmt.Errorf("…: %w", err)` and `return err` on an error of the round.
abbrev pub from_round : {A : Type 0} → Result Reward.Error A → Result Error A
from_round (err e) = err (round_error e)
from_round (ok a) = ok a

-- `emitRewardUpdate`: a full queue only sets the overflow flag.
unfoldable pub emit_reward_update : {F : Type 0} → RewardUpdate → World F → World F
emit_reward_update u w =
    let full = leb max_pending_events (length w.reward_updates) in
    record w {
      reward_updates = if full then w.reward_updates else w.reward_updates ++ u ∷ [];
      reward_overflow = full || w.reward_overflow;
    }

-- `TakeRewardUpdates`
unfoldable pub take_reward_updates : {F : Type 0} → World F → (List RewardUpdate × Bool) × World F
take_reward_updates w = (
  (w.reward_updates, w.reward_overflow),
  record w { reward_updates = []; reward_overflow = false },
)

-- The loop of `StartReward` over the offers.
unfoldable pub announce : {F : Type 0} → List Offer → World F → World F
unfolding emit_reward_update
announce [] w = w
announce (o ∷ os) w = announce os (
    emit_reward_update
      (record {
        kind = reward_options_available;
        stage_index = (w.stage).index;
        server_tick = u64 (w.tick + 1);
        player_id = o.player_id;
        equipment_ids = o.equipment_ids;
        deadline_tick = o.deadline_tick;
        equipment_id = 0;
        defaulted = false;
      })
      w)

module _ {F : Type 0} ⦃f : Float64 F⦄ where
  -- Whether `Apply` refuses one of the items for the player.
  abbrev pub refuses_item : Catalog F → List ℕ → Member F → Bool
  refuses_item c [] m = false
  refuses_item c (id ∷ ids) m =
      elim (apply_to c id m) [ err e ↦ true | ok _ ↦ false ] || refuses_item c ids m

  -- The same for the players with the IDs.
  abbrev pub refuses_any : Catalog F → List ℕ → List ℕ → List (ℕ × Member F) → Bool
  refuses_any c ids [] players = false
  refuses_any c ids (p ∷ ps) players =
      elim (lookup p players) [ none ↦ false | some m ↦ refuses_item c ids m ]
      || refuses_any c ids ps players

  -- `StartReward` after its checks.
  abbrev pub open_reward : Catalog F → Round → World F → World F
  open_reward c r w =
      announce (offers_of (some r))
        (with_stage reward (record w { reward_catalog = c; reward_round = some r }))

  -- The round that `StartReward` opens.
  abbrev pub round_for : ℕ → Catalog F → ℕ → ℕ → World F → Result Reward.Error Round
  round_for address c seed duration w =
      new_round address (w.stage).index seed w.tick duration (ordered_ids w.players) c.ids
        (min max_options (length c.ids))

  -- `StartReward`
  unfoldable pub start_reward : ℕ → Catalog F → ℕ → ℕ → World F → Result Error (World F)
  unfolding announce
  start_reward address c seed duration w = do
    reject_if (not (is_stage stage_clear w) || is_set w.reward_round) reward_state
    reject_if (length c.ids == 0) empty_catalog
    reject_if (refuses_any c c.ids (ordered_ids w.players) w.players) cannot_apply
    r ← from_round (round_for address c seed duration w)
    ok (open_reward c r w)

  -- The update that tells a player what was applied.
  abbrev pub applied_update : Selection → ℕ → World F → RewardUpdate
  applied_update s event_tick w = record {
    kind = reward_selection_applied;
    stage_index = (w.stage).index;
    server_tick = event_tick;
    player_id = s.player_id;
    equipment_ids = [];
    deadline_tick = 0;
    equipment_id = s.equipment_id;
    defaulted = s.defaulted;
  }

  -- `applyRewardSelection` after its checks: the member equipped, the update, the end of the round.
  abbrev pub settle_selection : Selection → ℕ → Member F → Round → World F → World F
  settle_selection s event_tick m r w =
      let told =
        emit_reward_update (applied_update s event_tick w)
          (record w { players = insert s.player_id m w.players; reward_round = some r }) in
      if complete (some r) then with_stage preparing_next_stage told else told

  -- `applyRewardSelection`
  unfoldable pub apply_reward_selection : Selection → ℕ → World F → Result Error (World F)
  unfolding emit_reward_update
  apply_reward_selection s event_tick w = do
    m ← elim (lookup s.player_id w.players) [ none ↦ err player_missing | some m ↦ ok m ]
    worn ← elim (apply_to w.reward_catalog s.equipment_id m) [
      | err e ↦ err cannot_apply
      | ok worn ↦ ok worn
    ]
    r ← from_round (commit w.reward_round s)
    ok (settle_selection s event_tick (equipped w.reward_catalog worn.0 worn.1 worn.2 m) r w)

  -- `ChooseReward`
  unfoldable pub choose_reward : ℕ → ℕ → World F → Result Error (World F)
  choose_reward player equipment w = do
    reject_if (not (is_stage reward w) || not (is_set w.reward_round)) reward_state
    s ← from_round (validate_choice w.reward_round player equipment w.tick)
    apply_reward_selection s (u64 (w.tick + 1)) w

  -- The loop of `stepReward`; an error panics.
  unfoldable pub apply_defaults : List Selection → World F → Option (World F)
  apply_defaults [] w = some w
  apply_defaults (s ∷ ss) w = elim (apply_reward_selection s w.tick w) [
    | err e ↦ none
    | ok w' ↦ apply_defaults ss w'
  ]

  -- `stepReward`
  unfoldable pub step_reward : World F → Option (World F)
  unfolding apply_defaults
  step_reward w = elim (is_stage reward w) [
    | false ↦ some w
    | true ↦ elim (due_defaults w.reward_round w.tick) [
      | none ↦ none
      | some ss ↦ apply_defaults ss w
    ]
  ]
