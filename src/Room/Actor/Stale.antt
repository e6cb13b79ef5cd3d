-- ===== src/Room/Actor/Stale.antt =====
-- room.go: a whole history after a session has left.
use the_return_of_the_odysse.Base.{
  ℕ, ◌+◌, ◌^◌, ◌≡◌, ◌<◌, refl, List, [], ◌∷◌, arith, length, All, All-append,
}
use the_return_of_the_odysse.Room.{
  Game, Control, Phase, selecting, taking_controls, taking_inputs, simulating, finishing, draining,
  stopped, Room, Sight, submit, input,
}
use the_return_of_the_odysse.Room.Actor.{
  drain, simulate, finish, select_tick, select_cancel, select_timer, proceed, Action, submits,
  inputs_, proceeds, step, run,
}
use the_return_of_the_odysse.Room.Actor.Generations.{
  Gone, IsNewer, Keeps, same-Keeps, take_control-Keeps, take_input-Keeps,
}

-- What one step does from when the session left.
abbrev Stays : {g : Game} → ℕ → ℕ → Room g → Room g × List (Sight g) → Type 0
Stays session old r (r', seen) = Keeps session old r r' × All (IsNewer session old) seen

drain-Stays :
    {g : Game} (session old : ℕ) (r : Room g) (cs : List (Control g))
    → r.controls ≡ cs
    → Gone session old r
    → Stays session old r (drain r)
unfolding drain
drain-Stays session old r [] e v =
    let grown = v.grown in
    rw (e, drain) ((record { grown = v.grown; member = tt }, omega arith), tt)
drain-Stays session old r (c ∷ cs) e v =
    rw (e, drain) (same-Keeps session old r _ v refl refl, (tt, tt))

proceeds-Stays :
    {g : Game} (session old now : ℕ) (r : Room g) (phase : Phase)
    → Gone session old r
    → r.generation + 1 < 2 ^ 64
    → Stays session old r (proceed now (record r { phase = phase }))
unfolding proceed simulate finish
proceeds-Stays session old now r selecting v h = (same-Keeps session old r _ v refl refl, tt)
proceeds-Stays session old now r (taking_controls left at) v h =
    let v0 : Gone session old (record r { phase = taking_controls left at }) = record {
      grown = v.grown;
      member = v.member;
    } in
    take_control-Keeps session old left at (record r { phase = taking_controls left at }) r.controls
      refl v0 h
proceeds-Stays session old now r (taking_inputs left at) v h =
    let v0 : Gone session old (record r { phase = taking_inputs left at }) = record {
      grown = v.grown;
      member = v.member;
    } in
    take_input-Keeps session old left at (record r { phase = taking_inputs left at }) r.inputs refl
      v0
proceeds-Stays session old now r simulating v h = (same-Keeps session old r _ v refl refl, tt)
proceeds-Stays session old now r finishing v h = (same-Keeps session old r _ v refl refl, tt)
proceeds-Stays session old now r draining v h =
    let v0 : Gone session old (record r { phase = draining }) = record {
      grown = v.grown;
      member = v.member;
    } in
    drain-Stays session old (record r { phase = draining }) r.controls refl v0
proceeds-Stays session old now r stopped v h = (same-Keeps session old r _ v refl refl, tt)

submit-Stays :
    {g : Game} (session old : ℕ) (c : Control g) (r : Room g)
    → Gone session old r
    → Stays session old r (submit c r)
unfolding submit
submit-Stays session old c r v =
    (same-Keeps session old r _ v (ground arith) (ground arith), ground arith)

input-Stays :
    {g : Game} (session old from received : ℕ) (intent : g.Input) (r : Room g)
    → Gone session old r
    → Stays session old r (input from intent received r)
unfolding input
input-Stays session old from received intent r v =
    (same-Keeps session old r _ v (ground arith) (ground arith), ground arith)

step-Stays :
    {g : Game} (session old : ℕ) (r : Room g) (a : Action g)
    → Gone session old r
    → r.generation + 1 < 2 ^ 64
    → Stays session old r (step r a)
unfolding step select_tick select_cancel select_timer
step-Stays session old r (submits c) v h = submit-Stays session old c r v
step-Stays session old r (inputs_ from intent received) v h =
    input-Stays session old from received intent r v
step-Stays session old r (proceeds now) v h = proceeds-Stays session old now r r.phase v h
step-Stays session old r _ v h = (same-Keeps session old r _ v (ground arith) (ground arith), tt)

pub run-Stays :
    {g : Game} (session old : ℕ) (r : Room g) (as_ : List (Action g))
    → Gone session old r
    → r.generation + length as_ < 2 ^ 64
    → All (IsNewer session old) (run r as_).1
unfolding run
run-Stays session old r [] v h = tt
run-Stays session old r (a ∷ as_) v h =
    let ((v', slow), newer) = step-Stays session old r a v (omega arith) in
    All-append (IsNewer session old) (step r a).1 (run (step r a).0 as_).1 newer
      (run-Stays session old (step r a).0 as_ v' (omega arith))
