-- ===== src/Room/Actor.antt =====
-- room.go: the room's goroutine, `run`, `tick`, `applyControl` and `finish`, step by step.
pub mod Receipts
pub mod Closing
pub mod Generations
pub mod Stale
pub mod Bounds
pub mod Dated
mod Tests
use the_return_of_the_odysse.Base.{
  ℕ, zero, suc, ◌+◌, ◌-◌, Bool, true, false, not, ◌&&◌, ◌||◌, Option, none, some, List, [], ◌∷◌,
  ◌++◌, ltb, leb, ◌==◌, if◌then◌else◌, length,
}
use the_return_of_the_odysse.Base.Words.{u64}
use the_return_of_the_odysse.Base.Maps.{lookup, insert, erase}
use the_return_of_the_odysse.Base.Results.{Result, ok, err}
use the_return_of_the_odysse.Room.{
  Game, closed_room, session_bound, not_joined, game_error, Request, joins, leaves, starts_stage,
  starts_reward, chooses, asks_stage, asks_resume, asks_result, Control, Reply, done, refused,
  reports, Movement, Binding, Config, Reason, requested, idle, event_backpressure, Phase, selecting,
  taking_controls, taking_inputs, simulating, finishing, draining, stopped, Room, Sight, answered,
  applied, Outcome, submit, input,
}

-- A world's answer as the reply to a control.
abbrev pub reply_of : {g : Game} → Option ℕ → Reply g
reply_of none = done
reply_of (some e) = refused (game_error e)

abbrev pub report_of : {g : Game} → Result ℕ g.Report → Reply g
report_of (ok x) = reports x
report_of (err e) = refused (game_error e)

abbrev pub after : {g : Game} → Option ℕ × g.World → Room g → Room g × Reply g
after (failure, world) r = (record r { world = world }, reply_of failure)

-- What `applyControl` does with the answer of `AddPlayer`.
abbrev pub joined : {g : Game} → ℕ → ℕ → Option ℕ × g.World → Room g → Room g × Reply g
joined session player (some e, world) r = (record r { world = world }, refused (game_error e))
joined session player (none, world) r = (
  record r {
    world = world;
    generation = u64 (r.generation + 1);
    members =
        insert session (record { player_id = player; generation = u64 (r.generation + 1) })
          r.members;
    timer_armed = false;
  },
  done,
)

-- `applyControl` for a session that joins, and for one that leaves.
pub join : {g : Game} → ℕ → ℕ → Room g → Room g × Reply g
join {g = g} session player r = elim (lookup session r.members) [
  | some b ↦ if b.player_id == player then (r, done) else (r, refused session_bound)
  | none ↦ joined session player (g.add_player player r.world) r
]

pub leave : {g : Game} → ℕ → Room g → Room g × Reply g
leave {g = g} session r = elim (lookup session r.members) [
  | none ↦ (r, done)
  | some b ↦
      let world = g.remove_player b.player_id r.world in
      (
        record r {
          world = world;
          members = erase session r.members;
          timer_armed = if g.player_count world == 0 then true else r.timer_armed;
        },
        done,
      )
]

-- One control in the loop of `tick`, `applyControl` included.
pub serve : {g : Game} → Control g → Room g → Room g × Reply g
unfolding join leave
serve {g = g} c r = elim c.request [
  | joins player ↦ join c.session_id player r
  | leaves ↦ leave c.session_id r
  | starts_stage plan ↦ after (g.start_stage plan r.world) r
  | starts_reward reward ↦ after (g.start_reward reward r.world) r
  | chooses equipment ↦ elim (lookup c.session_id r.members) [
    | none ↦ (r, refused not_joined)
    | some b ↦ after (g.choose_reward b.player_id equipment r.world) r
  ]
  | asks_stage ↦ (r, report_of (g.completed_stage r.world))
  | asks_resume ↦ elim (lookup c.session_id r.members) [
    | none ↦ (r, refused not_joined)
    | some b ↦ (r, report_of (g.resume_state b.player_id r.world))
  ]
  | asks_result outcome ↦ (r, report_of (g.game_result outcome r.world))
]

-- One round of the loop over controls, with the budget `left`.
pub take_control : {g : Game} → ℕ → ℕ → Room g → Outcome g
unfolding serve
take_control zero now r = (record r { phase = taking_inputs r.config.inputs_per_tick now }, [])
take_control (suc left) now r = elim r.controls [
  | [] ↦ (record r { phase = taking_inputs r.config.inputs_per_tick now }, [])
  | c ∷ rest ↦
      let (r', reply) = serve c (record r { controls = rest; phase = taking_controls left now }) in
      (r', answered c reply ∷ [])
]

-- Whether a movement is dropped: its session is gone, or bound anew, or it is too old.
pub is_stale : {g : Game} → Movement g → Binding → ℕ → ℕ → Bool
is_stale m b now timeout = not (b.generation == m.generation) || leb timeout (now - m.received)

-- What `tick` does with the answer of `ApplyInput`.
abbrev pub heeded : {g : Game} → Movement g → ℕ → Option ℕ × g.World → Room g → Outcome g
heeded m player (none, world) r = (record r { world = world }, applied m player ∷ [])
heeded m player (some e, world) r = (
  record r { world = world; rejected_inputs = u64 (r.rejected_inputs + 1) },
  applied m player ∷ [],
)

abbrev pub drop_input : {g : Game} → Room g → Outcome g
drop_input r = (record r { rejected_inputs = u64 (r.rejected_inputs + 1) }, [])

pub move : {g : Game} → Movement g → ℕ → Room g → Outcome g
unfolding is_stale
move {g = g} m now r = elim (lookup m.session_id r.members) [
  | none ↦ drop_input r
  | some b ↦
      if is_stale m b now r.config.input_timeout
      then drop_input r
      else heeded m b.player_id (g.apply_input b.player_id m.input m.received r.world) r
]

-- One round of the loop over inputs.
pub take_input : {g : Game} → ℕ → ℕ → Room g → Outcome g
unfolding move
take_input zero now r = (record r { phase = simulating }, [])
take_input (suc left) now r = elim r.inputs [
  | [] ↦ (record r { phase = simulating }, [])
  | m ∷ rest ↦ move m now (record r { inputs = rest; phase = taking_inputs left now })
]

-- A batch goes into its channel, or closes the room.
abbrev pub fits : {A : Type 0} → List A × Bool → ℕ → List (List A) → Bool
fits (batch, overflow) capacity channel =
    not overflow && (length batch == 0 || ltb (length channel) capacity)

abbrev pub pushed : {A : Type 0} → List A × Bool → ℕ → List (List A) → List (List A)
pushed (batch, overflow) capacity channel =
    if not overflow && not (length batch == 0) && ltb (length channel) capacity
    then channel ++ batch ∷ []
    else channel

-- The rest of `tick`: the world's step, its events and its reward updates.
pub simulate : {g : Game} → ℕ → Room g → Room g
simulate {g = g} now r =
    let (batch, world) = g.take_events (g.step_world now r.world) in
    let (updates, world') = g.take_rewards world in
    let capacity = r.config.event_capacity in
    let flows = fits batch capacity r.events && fits updates capacity r.rewards in
    record r {
      world = world';
      events = pushed batch capacity r.events;
      rewards = pushed updates capacity r.rewards;
      close_reason = if flows then r.close_reason else some event_backpressure;
      phase = if flows then selecting else finishing;
    }

-- The first half of `finish`: no command is taken after it.
pub finish : {g : Game} → Room g → Room g
finish r = record r { cancelled = true; closed = true; phase = draining }

-- One round of the loop of `finish` over the controls left, and what follows it.
pub drain : {g : Game} → Room g → Outcome g
drain {g = g} r = elim r.controls [
  | [] ↦
      (record r { inputs = []; world = g.close_world r.world; members = []; phase = stopped }, [])
  | c ∷ rest ↦ (record r { controls = rest }, answered c (refused closed_room) ∷ [])
]

-- The next step of the goroutine once `select` has chosen; `now` is the clock.
pub proceed : {g : Game} → ℕ → Room g → Outcome g
unfolding take_control take_input simulate finish drain
proceed now r = elim r.phase [
  | selecting ↦ (r, [])
  | taking_controls left at ↦ take_control left at r
  | taking_inputs left at ↦ take_input left at r
  | simulating ↦ (simulate now r, [])
  | finishing ↦ (finish r, [])
  | draining ↦ drain r
  | stopped ↦ (r, [])
]

abbrev pub ends_with : {g : Game} → Reason → Room g → Room g
ends_with reason r = record r { close_reason = some reason; phase = finishing }

-- The branches of the `select` in `run`.
pub select_tick : {g : Game} → ℕ → Room g → Room g
select_tick now r =
    if r.cancelled
    then ends_with requested r
    else record r { phase = taking_controls r.config.controls_per_tick now }

pub select_cancel : {g : Game} → Room g → Room g
select_cancel r = if r.cancelled then ends_with requested r else r

pub select_timer : {g : Game} → Room g → Room g
select_timer r = if r.timer_armed then ends_with idle r else r

abbrev pub when_selecting : {g : Game} → Room g → Room g → Room g
when_selecting r chosen = elim r.phase [ selecting ↦ chosen | _ ↦ r ]

-- What happens to a room: calls from outside, `Close` or the parent's end, a consumer of the two
-- channels, and the goroutine.
pub data Action (g : Game) : Type 0 where
  submits : Control g → Action g
  inputs_ : ℕ → g.Input → ℕ → Action g
  cancels consumes_events consumes_rewards : Action g
  ticks : ℕ → Action g
  sees_cancel sees_timer : Action g
  proceeds : ℕ → Action g

abbrev rest_of : {A : Type 0} → List A → List A
rest_of [] = []
rest_of (x ∷ xs) = xs

unfoldable pub step : {g : Game} → Room g → Action g → Outcome g
unfolding submit input proceed select_tick select_cancel select_timer
step r (submits c) = submit c r
step r (inputs_ session intent received) = input session intent received r
step r cancels = (record r { cancelled = true }, [])
step r consumes_events = (record r { events = rest_of r.events }, [])
step r consumes_rewards = (record r { rewards = rest_of r.rewards }, [])
step r (ticks now) = (when_selecting r (select_tick now r), [])
step r sees_cancel = (when_selecting r (select_cancel r), [])
step r sees_timer = (when_selecting r (select_timer r), [])
step r (proceeds now) = proceed now r

unfoldable pub run : {g : Game} → Room g → List (Action g) → Outcome g
run r [] = (r, [])
run r (a ∷ as_) = let (r', seen) = step r a in let (last, more) = run r' as_ in (last, seen ++ more)
