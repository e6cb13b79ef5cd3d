-- ===== src/Room.antt =====
-- server/internal/room/room.go: the room actor. The methods that other goroutines call and the
-- steps of the room's own goroutine are atomic actions; every interleaving is a list of them. The
-- world that the room runs is an interface, `Game`. A buffered channel is a list with a capacity.
-- Not modelled: the published snapshots, tick samples and statistics, except `RejectedInputs`.
pub mod Actor
use the_return_of_the_odysse.Base.{
  ℕ, zero, suc, ◌+◌, ◌-◌, Bool, true, false, not, ◌&&◌, ◌||◌, Option, none, some, List, [], ◌∷◌,
  ◌++◌, ltb, leb, ◌==◌, if◌then◌else◌, length,
}
use the_return_of_the_odysse.Base.Words.{u64}
use the_return_of_the_odysse.Base.Maps.{lookup, insert, erase}
use the_return_of_the_odysse.Base.Results.{Result, ok, err, ◌>>◌, reject_if}

-- What the room uses of `game.World` (server/internal/game). A method that can fail returns the
-- number of its error, if any, and the world after it. A batch is its events and its overflow.
pub record Game : Type 1 where
  pub World : Type 0
  pub Plan : Type 0
  pub RewardStart : Type 0
  pub Input : Type 0
  pub Report : Type 0
  pub Event : Type 0
  pub valid_stage : Plan → Bool
  pub valid_input : Input → Bool
  pub add_player : ℕ → World → Option ℕ × World
  pub remove_player : ℕ → World → World
  pub player_count : World → ℕ
  pub apply_input : ℕ → Input → ℕ → World → Option ℕ × World
  pub start_stage : Plan → World → Option ℕ × World
  pub start_reward : RewardStart → World → Option ℕ × World
  pub choose_reward : ℕ → ℕ → World → Option ℕ × World
  pub completed_stage : World → Result ℕ Report
  pub resume_state : ℕ → World → Result ℕ Report
  pub game_result : ℕ → World → Result ℕ Report
  pub step_world : ℕ → World → World
  pub take_events : World → (List Event × Bool) × World
  pub take_rewards : World → (List Event × Bool) × World
  pub close_world : World → World

pub data Error : Type 0 where
  closed_room queue_full invalid_session session_bound not_joined : Error
  invalid_player unknown_equipment invalid_outcome invalid_stage invalid_input : Error
  game_error : ℕ → Error

-- `control`: what it asks for, and for whom. The receipt channel is the control's own.
pub data Request (g : Game) : Type 0 where
  joins : ℕ → Request g
  leaves : Request g
  starts_stage : g.Plan → Request g
  starts_reward : g.RewardStart → Request g
  chooses : ℕ → Request g
  asks_stage asks_resume : Request g
  asks_result : ℕ → Request g

pub record Control (g : Game) : Type 0 where
  pub session_id : ℕ
  pub request : Request g

pub data Reply (g : Game) : Type 0 where
  done : Reply g
  refused : Error → Reply g
  reports : g.Report → Reply g

pub record Movement (g : Game) : Type 0 where
  pub session_id : ℕ
  pub generation : ℕ
  pub input : g.Input
  pub received : ℕ

pub record Binding : Type 0 where
  pub player_id : ℕ
  pub generation : ℕ

-- `Config`, without the world's and the statistics' part.
pub record Config : Type 0 where
  pub control_capacity : ℕ
  pub input_capacity : ℕ
  pub controls_per_tick : ℕ
  pub inputs_per_tick : ℕ
  pub event_capacity : ℕ
  pub input_timeout : ℕ

pub data Reason : Type 0 where
  requested idle event_backpressure : Reason

-- Where the room's goroutine stands: in the `select` of `run`; in the loops of `tick`, with what is
-- left of the budget and the tick's time; before the simulation; at the start and in the loop of
-- `finish`; at its end.
pub data Phase : Type 0 where
  selecting : Phase
  taking_controls taking_inputs : ℕ → ℕ → Phase
  simulating finishing draining stopped : Phase

pub record Room (g : Game) : Type 0 where
  pub config : Config
  pub cancelled : Bool
  pub closed : Bool
  pub controls : List (Control g)
  pub inputs : List (Movement g)
  pub events : List (List g.Event)
  pub rewards : List (List g.Event)
  pub world : g.World
  pub members : List (ℕ × Binding)
  pub generation : ℕ
  pub timer_armed : Bool
  pub rejected : ℕ
  pub rejected_inputs : ℕ
  pub close_reason : Option Reason
  pub phase : Phase

-- What callers and the world see.
pub data Sight (g : Game) : Type 0 where
  queued : Control g → Sight g
  turned_away : Error → Sight g
  answered : Control g → Reply g → Sight g
  heard : Movement g → Sight g
  applied : Movement g → ℕ → Sight g

abbrev pub Outcome : Game → Type 0
Outcome g = Room g × List (Sight g)

-- `Start`, once its checks have passed and the world is made.
pub start : {g : Game} → Config → g.World → Room g
start config world = record {
  config = config;
  cancelled = false;
  closed = false;
  controls = [];
  inputs = [];
  events = [];
  rewards = [];
  world = world;
  members = [];
  generation = 0;
  timer_armed = true;
  rejected = 0;
  rejected_inputs = 0;
  close_reason = none;
  phase = selecting;
}

-- What `Join`, `Leave`, `StartStage`, `StartReward`, `ChooseReward`, `CompletedStage`,
-- `ResumeState` and `GameResult` check before they take the lock.
pub precheck : {g : Game} → Control g → Result Error (Unit {0})
precheck {g = g} c = elim c.request [
  | joins player ↦ do
    reject_if (c.session_id == 0) invalid_session
    reject_if (player == 0) invalid_player
    ok tt
  | leaves ↦ reject_if (c.session_id == 0) invalid_session
  | starts_stage plan ↦ reject_if (not (g.valid_stage plan)) invalid_stage
  | starts_reward _ ↦ ok tt
  | chooses equipment ↦ do
    reject_if (c.session_id == 0) invalid_session
    reject_if (equipment == 0) unknown_equipment
    ok tt
  | asks_stage ↦ ok tt
  | asks_resume ↦ reject_if (c.session_id == 0) invalid_session
  | asks_result outcome ↦ reject_if (outcome == 0 || ltb 3 outcome) invalid_outcome
]

-- `submit`, and its copies in `CompletedStage`, `ResumeState` and `GameResult`.
pub submit : {g : Game} → Control g → Room g → Outcome g
unfolding precheck
submit c r = elim (precheck c) [
  | err e ↦ (r, turned_away e ∷ [])
  | ok _ ↦
      if r.closed || r.cancelled
      then (r, turned_away closed_room ∷ [])
      else if ltb (length r.controls) r.config.control_capacity
      then (record r { controls = r.controls ++ c ∷ [] }, queued c ∷ [])
      else (record r { rejected = u64 (r.rejected + 1) }, turned_away queue_full ∷ [])
]

abbrev pub movement : {g : Game} → ℕ → ℕ → g.Input → ℕ → Movement g
movement session generation intent received = record {
  session_id = session;
  generation = generation;
  input = intent;
  received = received;
}

-- `Input`
pub input : {g : Game} → ℕ → g.Input → ℕ → Room g → Outcome g
input {g = g} session intent received r =
    if session == 0
    then (r, turned_away invalid_session ∷ [])
    else if not (g.valid_input intent)
    then (r, turned_away invalid_input ∷ [])
    else if r.closed || r.cancelled
    then (r, turned_away closed_room ∷ [])
    else elim (lookup session r.members) [
      | none ↦ (r, turned_away not_joined ∷ [])
      | some b ↦
          let m = movement session b.generation intent received in
          if ltb (length r.inputs) r.config.input_capacity
          then (record r { inputs = r.inputs ++ m ∷ [] }, heard m ∷ [])
          else (record r { rejected = u64 (r.rejected + 1) }, turned_away queue_full ∷ [])
    ]
