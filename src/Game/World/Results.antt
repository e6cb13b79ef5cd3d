-- ===== src/Game/World/Results.antt =====
-- What a world tells: `Snapshot` of server/internal/game/world.go, resume.go and result.go. An update
-- that is nil is `none`.
use the_return_of_the_odysse.Base.{
  ℕ, ◌-◌, Bool, true, false, not, ◌||◌, Option, none, some, List, [], ◌∷◌, ◌++◌, ltb, ◌==◌,
  if◌then◌else◌, map,
}
use the_return_of_the_odysse.Base.Maps.{lookup}
use the_return_of_the_odysse.Base.Sorting.{sort}
use the_return_of_the_odysse.Base.Results.{Result, ok, err, ◌>>=◌, ◌>>◌, reject_if}
use the_return_of_the_odysse.Game.Entity.{Vec2, Player, MonsterState}
use the_return_of_the_odysse.Game.Stage.{waiting, failed, closed, View}
use the_return_of_the_odysse.Game.Reward.{Offer, offer_of}
use the_return_of_the_odysse.Game.World.{
  Error, player_missing, invalid_outcome, result_state, Foe, PickupView, RewardUpdate,
  reward_options_available, reward_selection_applied, StageSummary, PlayerResult, World, ids_of,
  ordered_ids, is_stage, player_result,
}
use the_return_of_the_odysse.Game.World.Performance.{is_won}

-- The values of a map, by the IDs.
abbrev pub values_at : {V : Type 0} → List ℕ → List (ℕ × V) → List V
values_at [] m = []
values_at (id ∷ ids) m = elim (lookup id m) [
  | none ↦ values_at ids m
  | some v ↦ v ∷ values_at ids m
]

pub record MonsterView (F : Type 0) : Type 0 where
  pub id : ℕ
  pub position : Vec2 F
  pub velocity : Vec2 F
  pub health : F
  pub max_health : F
  pub state : MonsterState

pub record Snapshot (F : Type 0) : Type 0 where
  pub server_tick : ℕ
  pub players : List (Player F)
  pub monsters : List (MonsterView F)
  pub pickups : List (PickupView F)
  pub stage : View F

abbrev pub monster_view : {F : Type 0} → Foe F → MonsterView F
monster_view e =
    let m = e.monster in
    record {
      id = m.id;
      position = m.position;
      velocity = m.velocity;
      health = m.health;
      max_health = (m.current_stats).max_health;
      state = m.state;
    }

-- `Snapshot`. The players are sorted by ID, which is their key.
unfoldable pub snapshot : {F : Type 0} → World F → Snapshot F
snapshot w = record {
  server_tick = w.tick;
  players = map (λ m. m.player) (values_at (ordered_ids w.players) w.players);
  monsters = map monster_view (values_at (ordered_ids w.monsters) w.monsters);
  pickups = values_at (ordered_ids w.pickups) w.pickups;
  stage = w.stage;
}

-- The update that `ResumeState` builds from an offer.
abbrev pub resume_update : {F : Type 0} → ℕ → Offer → World F → RewardUpdate
resume_update player o w =
    if o.selected_id == 0
    then record {
      kind = reward_options_available;
      stage_index = (w.stage).index;
      server_tick = w.tick;
      player_id = player;
      equipment_ids = o.equipment_ids;
      deadline_tick = o.deadline_tick;
      equipment_id = 0;
      defaulted = false;
    }
    else record {
      kind = reward_selection_applied;
      stage_index = (w.stage).index;
      server_tick = w.tick;
      player_id = player;
      equipment_ids = [];
      deadline_tick = o.deadline_tick;
      equipment_id = o.selected_id;
      defaulted = o.defaulted;
    }

-- `ResumeState`
unfoldable pub resume_state :
    {F : Type 0} → ℕ → World F → Result Error (Snapshot F × Option RewardUpdate)
unfolding snapshot
resume_state player w = elim (lookup player w.players) [
  | none ↦ err player_missing
  | some m ↦ ok (
    snapshot w,
    elim (offer_of w.reward_round player) [
      | none ↦ none
      | some o ↦ some (resume_update player o w)
    ],
  )
]

-- `GameOutcome`; any other number is the last.
pub data Outcome : Type 0 where
  victory defeat abandoned unknown_outcome : Outcome

pub record GameResult (F : Type 0) : Type 0 where
  pub outcome : Outcome
  pub started_at_tick : ℕ
  pub ended_at_tick : ℕ
  pub final_stage_index : ℕ
  pub cleared_stages : List (StageSummary F)
  pub players : List (PlayerResult F)

-- `DurationTicks`
unfoldable pub duration_ticks : {F : Type 0} → GameResult F → ℕ
duration_ticks r =
    if ltb r.ended_at_tick r.started_at_tick then 0 else r.ended_at_tick - r.started_at_tick

abbrev pub last_clear : {F : Type 0} → List (StageSummary F) → Option ℕ
last_clear [] = none
last_clear (s ∷ ss) = elim (last_clear ss) [ none ↦ some s.clear_tick | some t ↦ some t ]

-- The `switch` of `GameResult`: the tick of the end.
unfoldable pub end_tick : {F : Type 0} → Outcome → World F → Result Error ℕ
end_tick victory w = elim (last_clear w.completed_stages) [
  | none ↦ err result_state
  | some t ↦ if not (w.performance).ready || not (is_won w) then err result_state else ok t
]
end_tick defeat w =
    if not (is_stage failed w) || w.run_ended_at_tick == 0
    then err result_state
    else ok w.run_ended_at_tick
end_tick abandoned w =
    if is_stage waiting w || is_stage closed w || is_stage failed w
    then err result_state
    else ok w.tick
end_tick unknown_outcome w = ok w.tick

-- The results of all players, in the order of their IDs; no ID is in both maps.
abbrev pub player_results : {F : Type 0} → World F → List (PlayerResult F)
player_results w =
    let live = map (λ entry. (entry.0, player_result (entry.1).player)) w.players in
    let all = w.departed ++ live in values_at (sort (ids_of all)) all

abbrev pub is_outcome : Outcome → Bool
is_outcome unknown_outcome = false
is_outcome _ = true

-- `GameResult`
unfoldable pub game_result : {F : Type 0} → Outcome → World F → Result Error (GameResult F)
unfolding end_tick
game_result o w = do
  reject_if (not (is_outcome o)) invalid_outcome
  reject_if (not w.run_started) result_state
  ended ← end_tick o w
  ok (record {
    outcome = o;
    started_at_tick = w.run_started_at_tick;
    ended_at_tick = ended;
    final_stage_index = (w.stage).index;
    cleared_stages = w.completed_stages;
    players = player_results w;
  })
