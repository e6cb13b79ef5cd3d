-- ===== src/Room/Actor/Tests.antt =====
-- room.go on concrete histories: a game whose world is the list of its players.
use the_return_of_the_odysse.Base.{
  ℕ, ◌≡◌, ◌==◌, if◌then◌else◌, refl, true, false, none, some, List, [], ◌∷◌, ◌++◌, arith, length,
  All,
}
use the_return_of_the_odysse.Base.Maps.{lookup}
use the_return_of_the_odysse.Base.Counting.{contains}
use the_return_of_the_odysse.Base.Results.{ok, err}
use the_return_of_the_odysse.Room.{
  Game, Control, joins, leaves, Config, start, submit, input, stopped, precheck,
}
use the_return_of_the_odysse.Room.Actor.{
  Action, submits, inputs_, cancels, ticks, sees_cancel, proceeds, join, leave, serve, take_control,
  finish, drain, proceed, select_tick, select_cancel, step, run,
}
use the_return_of_the_odysse.Room.Actor.Receipts.{taken, replied, run-receipts}
use the_return_of_the_odysse.Room.Actor.Closing.{stopped_answered}
use the_return_of_the_odysse.Room.Actor.Generations.{IsNewer}
use the_return_of_the_odysse.Room.Actor.Bounds.{Waits}
use the_return_of_the_odysse.Room.Actor.Dated.{stale_dropped}

abbrev without : ℕ → List ℕ → List ℕ
without p [] = []
without p (x ∷ xs) = if x == p then xs else x ∷ without p xs

abbrev roster : Game
roster = record {
  World = List ℕ;
  Plan = ℕ;
  RewardStart = ℕ;
  Input = ℕ;
  Report = ℕ;
  Event = ℕ;
  valid_stage = λ plan. true;
  valid_input = λ i. true;
  add_player = λ p w. if contains p w then (some 1, w) else (none, p ∷ w);
  remove_player = without;
  player_count = length;
  apply_input = λ p i t w. (none, w);
  start_stage = λ plan w. (none, w);
  start_reward = λ reward w. (none, w);
  choose_reward = λ p i w. (none, w);
  completed_stage = λ w. err 1;
  resume_state = λ p w. ok p;
  game_result = λ o w. err 2;
  step_world = λ now w. w;
  take_events = λ w. (([], false), w);
  take_rewards = λ w. (([], false), w);
  close_world = λ w. [];
}

abbrev config : Config
config = record {
  control_capacity = 4;
  input_capacity = 4;
  controls_per_tick = 2;
  inputs_per_tick = 2;
  event_capacity = 4;
  input_timeout = 10;
}

abbrev enter : Control roster
enter = record { session_id = 5; request = joins 9 }

abbrev exit : Control roster
exit = record { session_id = 5; request = leaves }

-- Session 5 joins, sends an input, and leaves before the input is read.
abbrev visit : List (Action roster)
visit = submits enter ∷ ticks 1 ∷ proceeds 1 ∷ inputs_ 5 44 1 ∷ submits exit ∷ proceeds 1 ∷ []

-- It joins again, and the loop over inputs runs.
abbrev comes_back : List (Action roster)
comes_back =
    proceeds 1
    ∷ submits enter
    ∷ proceeds 1
    ∷ proceeds 1
    ∷ ticks 2
    ∷ proceeds 2
    ∷ proceeds 2
    ∷ inputs_ 5 45 2
    ∷ proceeds 2
    ∷ []

visit_out : lookup 5 (run (start {g = roster} config []) visit).0.members ≡ none
unfolding run step start submit precheck input proceed take_control serve join leave select_tick
visit_out = refl

stale_dropped_example :
    let r = (run (start {g = roster} config []) visit).0 in
    Waits r.generation r.inputs × All (IsNewer 5 r.generation) (run r comes_back).1
stale_dropped_example =
    stale_dropped {g = roster} config [] visit comes_back 5 (omega arith) visit_out

run-receipts_example :
    let r = start {g = roster} config [] in
    r.controls ++ taken (run r visit).1 ≡ replied (run r visit).1 ++ (run r visit).0.controls
run-receipts_example = run-receipts (start {g = roster} config []) visit

abbrev shut_down : List (Action roster)
shut_down =
    submits enter
    ∷ submits exit
    ∷ cancels
    ∷ sees_cancel
    ∷ proceeds 3
    ∷ proceeds 3
    ∷ proceeds 3
    ∷ proceeds 3
    ∷ []

shut_down_stops : (run (start {g = roster} config []) shut_down).0.phase ≡ stopped
unfolding run step start submit precheck proceed finish drain select_cancel
shut_down_stops = refl

stopped_answered_example :
    ((run (start {g = roster} config []) shut_down).0.closed ≡ true)
    × (taken (run (start {g = roster} config []) shut_down).1
        ≡ replied (run (start {g = roster} config []) shut_down).1)
stopped_answered_example = stopped_answered {g = roster} config [] shut_down shut_down_stops
