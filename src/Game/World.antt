-- ===== src/Game/World.antt =====
-- server/internal/game/world.go: the state of a world, and how players come, go and give input. A Go
-- map with IDs as keys is an association list; a loop over a map runs in the order of the list. A
-- time is the number of nanoseconds since the zero `time.Time`. A method returns the new world; `none`
-- is a panic.
pub mod Ammo
pub mod Pickups
pub mod Performance
pub mod Stages
pub mod Rewards
pub mod Damage
pub mod Foes
pub mod Shots
pub mod Combat
pub mod Ticks
pub mod Results
pub mod Calls
pub mod Members
pub mod Magazines
pub mod Core
pub mod Transitions
pub mod Promises
mod Tests
use the_return_of_the_odysse.Base.{
  ℕ, suc, ◌+◌, ◌*◌, ◌%◌, ◌^◌, Bool, true, false, not, ◌&&◌, ◌||◌, Option, none, some, List, [], ◌∷◌,
  ◌++◌, ltb, leb, ◌==◌, if◌then◌else◌, length,
}
use the_return_of_the_odysse.Base.Words.{u64}
use the_return_of_the_odysse.Base.Floats.{Float64, zero_f, one_f}
use the_return_of_the_odysse.Base.Maps.{lookup, insert, erase}
use the_return_of_the_odysse.Base.Sorting.{sort}
use the_return_of_the_odysse.Base.Results.{Result, ok, err, ◌>>=◌, ◌>>◌, reject_if}
use the_return_of_the_odysse.Game.Entity.{
  Vec2, CombatStats, EquipmentState, Player, Monster, MonsterState, Projectile, finite, origin,
}
use the_return_of_the_odysse.Game.Equipment.{Catalog}
use the_return_of_the_odysse.Game.Loadout.{Loadout}
use the_return_of_the_odysse.Game.Reward.{Round, remove_player, complete}
use the_return_of_the_odysse.Game.Stage.{
  StageState, waiting, reward, preparing_next_stage, closed, is_state, Plan, View, empty_view,
  empty_plan,
}
use the_return_of_the_odysse.Game.Config.{Config, valid_config}
use the_return_of_the_odysse.Game.Systems.{normalize_direction}
use the_return_of_the_odysse.Game.Arena.{CoverBlock}
use the_return_of_the_odysse.Game.Reward as Reward

pub data Error : Type 0 where
  invalid_player player_exists player_missing world_full invalid_input stale_input : Error
  invalid_plan stage_state stage_index reward_state empty_catalog cannot_apply : Error
  invalid_outcome result_state performance_unavailable invalid_config : Error
  round_error : Reward.Error → Error

pub record Input (F : Type 0) : Type 0 where
  pub seq : ℕ
  pub direction : Vec2 F
  pub aim : Vec2 F
  pub shoot : Bool
  pub use_potion : Bool
  pub reload : Bool

-- `playerState`
pub record Member (F : Type 0) : Type 0 where
  pub player : Player F
  pub input : Input F
  pub received_at : ℕ
  pub pending : Bool
  pub next_shot : ℕ
  pub firing : Bool
  pub loadout : Loadout

-- `monsterState`
pub record Foe (F : Type 0) : Type 0 where
  pub monster : Monster F
  pub previous : Vec2 F
  pub target : ℕ
  pub next_attack : ℕ

pub data PickupKind : Type 0 where
  health_pickup weapon_pickup : PickupKind

pub record PickupView (F : Type 0) : Type 0 where
  pub id : ℕ
  pub kind : PickupKind
  pub position : Vec2 F
  pub equipment_id : ℕ
  pub value : F

pub data EventKind : Type 0 where
  stage_started projectile_spawned projectile_destroyed damage_dealt entity_died : EventKind
  stage_cleared team_defeated : EventKind

pub record Event (F : Type 0) : Type 0 where
  pub kind : EventKind
  pub stage_index : ℕ
  pub server_tick : ℕ
  pub entity_id : ℕ
  pub source_id : ℕ
  pub target_id : ℕ
  pub position : Vec2 F
  pub velocity : Vec2 F
  pub amount : F
  pub health : F
  pub expires_at_tick : ℕ

pub data RewardUpdateKind : Type 0 where
  reward_options_available reward_selection_applied : RewardUpdateKind

pub record RewardUpdate : Type 0 where
  pub kind : RewardUpdateKind
  pub stage_index : ℕ
  pub server_tick : ℕ
  pub player_id : ℕ
  pub equipment_ids : List ℕ
  pub deadline_tick : ℕ
  pub equipment_id : ℕ
  pub defaulted : Bool

-- `director.PerformanceMetrics`
pub record PerformanceMetrics (F : Type 0) : Type 0 where
  pub clear_time_seconds : F
  pub team_hp_percent : F
  pub average_dps : F
  pub death_count : ℕ
  pub damage_taken : F
  pub equipment_power : F

pub record StagePerformance (F : Type 0) : Type 0 where
  pub started_at_tick : ℕ
  pub damage_dealt : F
  pub damage_taken : F
  pub death_count : ℕ
  pub equipment_power : F
  pub frozen : PerformanceMetrics F
  pub ready : Bool

pub record StageSummary (F : Type 0) : Type 0 where
  pub index : ℕ
  pub seed : ℕ
  pub difficulty_score : F
  pub clear_tick : ℕ
  pub performance : PerformanceMetrics F

pub record PlayerResult (F : Type 0) : Type 0 where
  pub player_id : ℕ
  pub alive : Bool
  pub health : F
  pub stats : CombatStats F
  pub equipment : EquipmentState

pub record World (F : Type 0) : Type 0 where
  pub config : Config F
  pub tick : ℕ
  pub players : List (ℕ × Member F)
  pub departed : List (ℕ × PlayerResult F)
  pub monsters : List (ℕ × Foe F)
  pub projectiles : List (ℕ × Projectile F)
  pub pickups : List (ℕ × PickupView F)
  pub covers : List (CoverBlock F)
  pub next_entity : ℕ
  pub stage : View F
  pub events : List (Event F)
  pub event_overflow : Bool
  pub reward_round : Option Round
  pub reward_catalog : Catalog F
  pub reward_updates : List RewardUpdate
  pub reward_overflow : Bool
  pub performance : StagePerformance F
  pub current_plan : Plan F
  pub completed_stages : List (StageSummary F)
  pub run_started : Bool
  pub run_started_at_tick : ℕ
  pub run_ended_at_tick : ℕ

abbrev pub first_world_entity_id : ℕ
first_world_entity_id = 2 ^ 63

abbrev pub max_pending_events : ℕ
max_pending_events = 4096

abbrev pub base_magazine_capacity : ℕ
base_magazine_capacity = 12

-- `_, exists := m[key]`, or `p != nil`
abbrev pub is_set : {V : Type 0} → Option V → Bool
is_set none = false
is_set (some v) = true

-- The keys of a map.
abbrev pub ids_of : {V : Type 0} → List (ℕ × V) → List ℕ
ids_of [] = []
ids_of (entry ∷ rest) = entry.0 ∷ ids_of rest

-- `orderedIDs`
abbrev pub ordered_ids : {V : Type 0} → List (ℕ × V) → List ℕ
ordered_ids m = sort (ids_of m)

-- `for _, v := range m` where each round changes only its own value.
abbrev pub change_all : {V : Type 0} → (V → V) → List (ℕ × V) → List (ℕ × V)
change_all change [] = []
change_all change (entry ∷ rest) = (entry.0, change entry.1) ∷ change_all change rest

abbrev pub is_stage : {F : Type 0} → StageState → World F → Bool
is_stage s w = is_state (w.stage).state s

abbrev pub with_stage : {F : Type 0} → StageState → World F → World F
with_stage s w = let v = w.stage in record w { stage = record v { state = s } }

-- `allocateID`: the world and the new ID.
abbrev pub allocate_id : {F : Type 0} → World F → World F × ℕ
allocate_id w =
    let n = u64 (w.next_entity + 1) in
    (
      record w { next_entity = n },
      if ltb n first_world_entity_id then first_world_entity_id + n else n,
    )

-- `Catalog{}`
abbrev pub empty_catalog_value : {F : Type 0} → Catalog F
empty_catalog_value = record { version = 0; items = []; ids = [] }

-- `playerResult`
abbrev pub player_result : {F : Type 0} → Player F → PlayerResult F
player_result p = record {
  player_id = p.id;
  alive = p.alive;
  health = p.health;
  stats = p.current_stats;
  equipment = p.equipment;
}

-- The entry that a player who leaves a started run keeps for the results.
abbrev pub departing : {F : Type 0} → ℕ → World F → List (ℕ × PlayerResult F)
departing id w = elim (lookup id w.players) [
  | none ↦ w.departed
  | some m ↦ if w.run_started then insert id (player_result m.player) w.departed else w.departed
]

-- `RemovePlayer`
unfoldable pub world_remove_player : {F : Type 0} → ℕ → World F → World F
world_remove_player id w =
    let (round, removed) = remove_player w.reward_round id in
    let left = record w {
      departed = departing id w;
      players = erase id w.players;
      reward_round = round;
    } in
    if removed && is_stage reward w && not (length left.players == 0) && complete round
    then with_stage preparing_next_stage left
    else left

-- `PlayerCount`
abbrev pub player_count : {F : Type 0} → World F → ℕ
player_count w = length w.players

module _ {F : Type 0} ⦃f : Float64 F⦄ where
  open f use {same}

  abbrev pub empty_metrics : PerformanceMetrics F
  empty_metrics = record {
    clear_time_seconds = zero_f;
    team_hp_percent = zero_f;
    average_dps = zero_f;
    death_count = 0;
    damage_taken = zero_f;
    equipment_power = zero_f;
  }

  -- `stagePerformance{startedAtTick: …, equipmentPower: …}`
  abbrev pub fresh_performance : ℕ → F → StagePerformance F
  fresh_performance started power = record {
    started_at_tick = started;
    damage_dealt = zero_f;
    damage_taken = zero_f;
    death_count = 0;
    equipment_power = power;
    frozen = empty_metrics;
    ready = false;
  }

  abbrev pub empty_input : Input F
  empty_input = record {
    seq = 0;
    direction = origin;
    aim = origin;
    shoot = false;
    use_potion = false;
    reload = false;
  }

  abbrev pub empty_world : Config F → Catalog F → World F
  empty_world config catalog = record {
    config = config;
    tick = 0;
    players = [];
    departed = [];
    monsters = [];
    projectiles = [];
    pickups = [];
    covers = [];
    next_entity = 0;
    stage = empty_view;
    events = [];
    event_overflow = false;
    reward_round = none;
    reward_catalog = catalog;
    reward_updates = [];
    reward_overflow = false;
    performance = fresh_performance 0 zero_f;
    current_plan = empty_plan;
    completed_stages = [];
    run_started = false;
    run_started_at_tick = 0;
    run_ended_at_tick = 0;
  }

  -- `NewWorld`, with at most one catalogue.
  unfoldable pub new_world : Config F → Option (Catalog F) → Result Error (World F)
  new_world config catalogs =
      reject_if (not (valid_config config)) invalid_config
      >> ok (empty_world config (elim catalogs [ none ↦ empty_catalog_value | some c ↦ c ]))

  -- `Clear`
  unfoldable pub clear_world : World F → World F
  clear_world w = record (empty_world w.config empty_catalog_value) {
    tick = w.tick;
    next_entity = w.next_entity;
  }

  -- `Close`
  unfoldable pub close_world : World F → World F
  unfolding clear_world
  close_world w = with_stage closed (clear_world w)

  -- The state that `AddPlayer` gives to a new player.
  abbrev pub new_member : ℕ → Config F → Member F
  new_member id c =
      let given = (c.combat).player_stats in
      let stats = record given { move_speed = c.move_speed } in
      record {
        player = record {
          id = id;
          position = c.spawn;
          velocity = origin;
          last_processed_input_seq = 0;
          base_stats = stats;
          current_stats = stats;
          health = stats.max_health;
          alive = true;
          aim = record { x = one_f; y = zero_f };
          equipment = record { weapon_id = 0; relic_id = 0; potion_id = 0 };
          ammo = base_magazine_capacity;
          magazine_capacity = base_magazine_capacity;
          reload_ticks_remaining = 0;
          reload_duration_ticks = 45;
        };
        input = empty_input;
        received_at = 0;
        pending = false;
        next_shot = 0;
        firing = false;
        loadout = record { weapon_id = 0; relic_id = 0; potion_id = 0 };
      }

  -- `AddPlayer`
  unfoldable pub world_add_player : ℕ → World F → Result Error (World F)
  world_add_player id w = do
    reject_if (id == 0 || leb first_world_entity_id id) invalid_player
    reject_if (is_set (lookup id w.players)) player_exists
    reject_if (leb (w.config).capacity (length w.players)) world_full
    reject_if (not (is_stage waiting w)) stage_state
    ok (record w {
      departed = erase id w.departed;
      players = insert id (new_member id w.config) w.players;
    })

  -- `Input.Validate`: whether the input is accepted.
  unfoldable pub valid_input : Input F → Bool
  valid_input i = not (
      i.seq == 0
      || not (finite i.direction)
      || not (finite i.aim)
      || (i.shoot && same (i.aim).x zero_f && same (i.aim).y zero_f))

  -- The input as `ApplyInput` keeps it: one-off actions of the same tick are not lost.
  abbrev pub merged : Member F → Input F → Input F
  merged m i = record i {
    direction = normalize_direction i.direction;
    use_potion = i.use_potion || (m.pending && (m.input).use_potion);
    reload = i.reload || (m.pending && (m.input).reload);
  }

  -- `ApplyInput`
  unfoldable pub world_apply_input : ℕ → Input F → ℕ → World F → Result Error (World F)
  world_apply_input id i received_at w = do
    reject_if (not (valid_input i)) invalid_input
    m ← elim (lookup id w.players) [ none ↦ err player_missing | some m ↦ ok m ]
    reject_if (leb i.seq (m.input).seq || ltb received_at m.received_at) stale_input
    ok (record w {
      players =
          insert id (record m { input = merged m i; received_at = received_at; pending = true })
            w.players;
    })
