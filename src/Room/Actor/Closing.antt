-- ===== src/Room/Actor/Closing.antt =====
-- room.go: a room that has ended has answered every command.
use the_return_of_the_odysse.Base.{
  ℕ, zero, suc, ◌-◌, ◌≡◌, ◌⊎◌, inr, refl, ap, subst, ◌∙◌, true, Option, none, some, List, [], ◌∷◌,
  ◌++◌, arith,
}
use mathlib.Core.List.{append-nil}
use the_return_of_the_odysse.Room.{
  Game, Control, Movement, Phase, taking_controls, taking_inputs, simulating, draining, stopped,
  Room, Config, start, submit, input,
}
use the_return_of_the_odysse.Room.Actor.{
  heeded, serve, take_control, take_input, move, drain, simulate, finish, select_tick,
  select_cancel, select_timer, proceed, Action, submits, inputs_, proceeds, ticks, sees_cancel,
  sees_timer, step, run,
}
use the_return_of_the_odysse.Room.Actor.Receipts.{taken, replied, serve-controls, run-receipts}

-- After `finish` has begun the room is closed, and at its end nothing is queued.
abbrev Ended : {g : Game} → Phase → Room g → Type 0
Ended draining r = r.closed ≡ true
Ended stopped r = (r.closed ≡ true) × (r.controls ≡ [])
Ended _ r = Unit

serve-closed : {g : Game} (c : Control g) (r : Room g) → (serve c r).0.phase ≡ r.phase
serve-closed c r = (serve-controls c r).1

take_control-open :
    {g : Game} (left now : ℕ) (r : Room g)
    → ((take_control left now r).0.phase ≡ taking_controls (left - 1) now)
      ⊎ ((take_control left now r).0.phase ≡ taking_inputs r.config.inputs_per_tick now)
unfolding take_control
take_control-open {g = g} zero now r = inr refl
take_control-open {g = g} (suc left) now r =
    let same = λ (c : Control g) (rest : List (Control g)).
      serve-closed c (record r { controls = rest; phase = taking_controls left now }) in
    ground (arith, same)

heeded-phase :
    {g : Game} (m : Movement g) (player : ℕ) (answer : Option ℕ × g.World) (r : Room g)
    → (heeded m player answer r).0.phase ≡ r.phase
heeded-phase m player (none, world) r = refl
heeded-phase m player (some e, world) r = refl

move-phase : {g : Game} (m : Movement g) (now : ℕ) (r : Room g) → (move m now r).0.phase ≡ r.phase
unfolding move
move-phase m now r = ground (arith, heeded-phase m)

take_input-open :
    {g : Game} (left now : ℕ) (r : Room g)
    → ((take_input left now r).0.phase ≡ taking_inputs (left - 1) now)
      ⊎ ((take_input left now r).0.phase ≡ simulating)
unfolding take_input
take_input-open zero now r = inr refl
take_input-open {g = g} (suc left) now r =
    let same = λ (m : Movement g) (rest : List (Movement g)).
      move-phase m now (record r { inputs = rest; phase = taking_inputs left now }) in
    ground (arith, same)

abbrev IsEnded : {g : Game} → Room g → Type 0
IsEnded r = Ended r.phase r

proceed-IsEnded : {g : Game} (now : ℕ) (r : Room g) → IsEnded r → IsEnded (proceed now r).0
unfolding proceed simulate finish drain
proceed-IsEnded now r v =
    let served = λ (left at : ℕ). take_control-open left at r in
    let moves = λ (left at : ℕ). take_input-open left at r in ground (arith, served, moves)

submit-IsEnded : {g : Game} (c : Control g) (r : Room g) → IsEnded r → IsEnded (submit c r).0
unfolding submit
submit-IsEnded c r v = ground arith

input-IsEnded :
    {g : Game} (session received : ℕ) (intent : g.Input) (r : Room g)
    → IsEnded r
    → IsEnded (input session intent received r).0
unfolding input
input-IsEnded session received intent r v = ground arith

step-IsEnded : {g : Game} (r : Room g) (a : Action g) → IsEnded r → IsEnded (step r a).0
unfolding step select_tick select_cancel select_timer
step-IsEnded r (submits c) v = submit-IsEnded c r v
step-IsEnded r (inputs_ session intent received) v = input-IsEnded session received intent r v
step-IsEnded r (proceeds now) v = proceed-IsEnded now r v
step-IsEnded r (ticks now) v = ground arith
step-IsEnded r sees_cancel v = ground arith
step-IsEnded r sees_timer v = ground arith
step-IsEnded r _ v = ground arith

run-IsEnded : {g : Game} (r : Room g) (as_ : List (Action g)) → IsEnded r → IsEnded (run r as_).0
unfolding run
run-IsEnded r [] v = v
run-IsEnded r (a ∷ as_) v = run-IsEnded (step r a).0 as_ (step-IsEnded r a v)

-- When the goroutine of a started room has ended, after whatever calls, the room is closed and
-- every command that was ever taken has had its answer, in the order of taking.
pub stopped_answered :
    {g : Game} (config : Config) (world : g.World) (as_ : List (Action g))
    → (run (start config world) as_).0.phase ≡ stopped
    → ((run (start config world) as_).0.closed ≡ true)
      × (taken (run (start config world) as_).1 ≡ replied (run (start config world) as_).1)
unfolding start
stopped_answered {g = g} config world as_ e =
    let (last, seen) = run (start config world) as_ in
    let ended_ : Ended stopped last =
      subst (λ p. Ended p last) e (run-IsEnded (start config world) as_ tt) in
    (
      ended_.0,
      run-receipts (start config world) as_
          ∙ ap (◌++◌ (replied seen)) ended_.1
          ∙ append-nil (replied seen),
    )
