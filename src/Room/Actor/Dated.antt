-- ===== src/Room/Actor/Dated.antt =====
-- room.go: no binding and no queued input is newer than the room's generation.
use the_return_of_the_odysse.Base.{
  ℕ, zero, suc, ◌+◌, ◌^◌, ◌≡◌, ◌≤◌, ◌<◌, inl, inr, refl, sym, subst, Option, none, some, List, [],
  ◌∷◌, arith, length, All, Option-cases, Bool-cases,
}
use the_return_of_the_odysse.Base.Words.{u64}
use the_return_of_the_odysse.Base.Maps.{lookup}
use the_return_of_the_odysse.Room.{
  Game, Request, joins, leaves, Control, Movement, Phase, taking_controls, taking_inputs, draining,
  movement, Room, Config, start, submit, input,
}
use the_return_of_the_odysse.Room.Actor.{
  is_stale, joined, join, leave, heeded, serve, take_control, take_input, move, drain, simulate,
  finish, select_tick, select_cancel, select_timer, proceed, Action, submits, inputs_, proceeds,
  step, run,
}
use the_return_of_the_odysse.Room.Actor.Bounds.{
  Bound, Waits, Dated, Bound-insert, Bound-erase, Bound-grows, lookup-Bound, Waits-grows,
  Waits-snoc,
}
use the_return_of_the_odysse.Room.Actor.Generations.{IsAbove, IsNewer, Gone}
use the_return_of_the_odysse.Room.Actor.Stale.{run-Stays}

-- The generation after a step, at most one more.
abbrev Grows : {g : Game} → Room g → Room g → Type 0
Grows r r' = Dated r' × (r'.generation ≤ r.generation + 1)

same-Grows :
    {g : Game} (r r' : Room g)
    → Dated r
    → r'.generation ≡ r.generation
    → r'.members ≡ r.members
    → r'.inputs ≡ r.inputs
    → Grows r r'
same-Grows {g = g} r r' v e m i = (
  record {
    waits = subst (λ n. Waits n r'.inputs) (sym e) (subst (Waits r.generation) (sym i) v.waits);
    bound = subst (λ n. Bound n r'.members) (sym e) (subst (Bound r.generation) (sym m) v.bound);
  },
  omega arith,
)

joined-Grows :
    {g : Game} (key player : ℕ) (answer : Option ℕ × g.World) (r : Room g)
    → Dated r
    → r.generation + 1 < 2 ^ 64
    → Grows r (joined key player answer r).0
joined-Grows key player (some e, world) r v h = same-Grows r _ v refl refl refl
joined-Grows key player (none, world) r v h =
    let fresh : u64 (r.generation + 1) ≡ r.generation + 1 = omega arith in
    let more : r.generation ≤ u64 (r.generation + 1) = omega (arith, fresh) in
    (
      record {
        waits = Waits-grows r.generation _ r.inputs v.waits more;
        bound =
            Bound-insert _ key _ r.members (Bound-grows r.generation _ r.members v.bound more)
              (omega arith);
      },
      omega (arith, fresh),
    )

join-Grows :
    {g : Game} (key player : ℕ) (r : Room g)
    → Dated r
    → r.generation + 1 < 2 ^ 64
    → Grows r (join key player r).0
unfolding join
join-Grows {g = g} key player r v h = elim (Option-cases (lookup key r.members)) [
  | inl e ↦ rw (e, join) (joined-Grows key player (g.add_player player r.world) r v h)
  | inr (b, e) ↦ rw (e, join) (same-Grows r _ v (ground arith) (ground arith) (ground arith))
]

leave-Grows : {g : Game} (key : ℕ) (r : Room g) → Dated r → Grows r (leave key r).0
unfolding leave
leave-Grows key r v = elim (Option-cases (lookup key r.members)) [
  | inl e ↦ rw (e, leave) (v, omega arith)
  | inr (b, e) ↦
      rw (e, leave)
        (
          record { waits = v.waits; bound = Bound-erase r.generation key r.members v.bound },
          omega arith,
        )
]

served-Grows :
    {g : Game} (key : ℕ) (request : Request g) (r : Room g)
    → Dated r
    → r.generation + 1 < 2 ^ 64
    → Grows r (serve (record { session_id = key; request = request }) r).0
unfolding serve
served-Grows key (joins player) r v h = join-Grows key player r v h
served-Grows key leaves r v h = leave-Grows key r v
served-Grows key request r v h = same-Grows r _ v (ground arith) (ground arith) (ground arith)

take_control-Grows :
    {g : Game} (left now : ℕ) (r : Room g) (cs : List (Control g))
    → r.controls ≡ cs
    → Dated r
    → r.generation + 1 < 2 ^ 64
    → Grows r (take_control left now r).0
unfolding take_control
take_control-Grows zero now r cs e v h = same-Grows r _ v refl refl refl
take_control-Grows (suc left) now r [] e v h =
    rw (e, take_control) (same-Grows r _ v refl refl refl)
take_control-Grows (suc left) now r (c ∷ cs) e v h =
    let r0 = record r { controls = cs; phase = taking_controls left now } in
    let v0 : Dated r0 = record { waits = v.waits; bound = v.bound } in
    rw (e, take_control) (served-Grows c.session_id c.request r0 v0 h)

heeded-Grows :
    {g : Game} (m : Movement g) (player : ℕ) (answer : Option ℕ × g.World) (r : Room g)
    → Dated r
    → Grows r (heeded m player answer r).0
heeded-Grows m player (none, world) r v = same-Grows r _ v refl refl refl
heeded-Grows m player (some e, world) r v = same-Grows r _ v refl refl refl

move-Grows : {g : Game} (now : ℕ) (m : Movement g) (r : Room g) → Dated r → Grows r (move m now r).0
unfolding move
move-Grows {g = g} now m r v = elim (Option-cases (lookup m.session_id r.members)) [
  | inl e ↦ rw (e, move) (same-Grows r _ v refl refl refl)
  | inr (b, e) ↦ elim (Bool-cases (is_stale m b now r.config.input_timeout)) [
    | inl f ↦ rw (e, f, move) (same-Grows r _ v refl refl refl)
    | inr f ↦
        rw (e, f, move)
          (heeded-Grows m b.player_id (g.apply_input b.player_id m.input m.received r.world) r v)
  ]
]

take_input-Grows :
    {g : Game} (left now : ℕ) (r : Room g) (ms : List (Movement g))
    → r.inputs ≡ ms
    → Dated r
    → Grows r (take_input left now r).0
unfolding take_input
take_input-Grows zero now r ms e v = same-Grows r _ v refl refl refl
take_input-Grows (suc left) now r [] e v = rw (e, take_input) (same-Grows r _ v refl refl refl)
take_input-Grows (suc left) now r (m ∷ ms) e v =
    let r0 = record r { inputs = ms; phase = taking_inputs left now } in
    let waits : Waits r.generation (m ∷ ms) = subst (Waits r.generation) e v.waits in
    let v0 : Dated r0 = record { waits = waits.1; bound = v.bound } in
    rw (e, take_input) (move-Grows now m r0 v0)

drain-Grows :
    {g : Game} (r : Room g) (cs : List (Control g))
    → r.controls ≡ cs
    → Dated r
    → Grows r (drain r).0
unfolding drain
drain-Grows r [] e v = rw (e, drain) (record { waits = tt; bound = tt }, omega arith)
drain-Grows r (c ∷ cs) e v = rw (e, drain) (same-Grows r _ v refl refl refl)

proceed-Grows :
    {g : Game} (now : ℕ) (r : Room g) (phase : Phase)
    → Dated r
    → r.generation + 1 < 2 ^ 64
    → Grows r (proceed now (record r { phase = phase })).0
unfolding proceed simulate finish
proceed-Grows now r (taking_controls left at) v h =
    let v0 : Dated (record r { phase = taking_controls left at }) = record {
      waits = v.waits;
      bound = v.bound;
    } in
    take_control-Grows left at (record r { phase = taking_controls left at }) r.controls refl v0 h
proceed-Grows now r (taking_inputs left at) v h =
    let v0 : Dated (record r { phase = taking_inputs left at }) = record {
      waits = v.waits;
      bound = v.bound;
    } in
    take_input-Grows left at (record r { phase = taking_inputs left at }) r.inputs refl v0
proceed-Grows now r draining v h =
    let v0 : Dated (record r { phase = draining }) = record { waits = v.waits; bound = v.bound } in
    drain-Grows (record r { phase = draining }) r.controls refl v0
proceed-Grows now r _ v h = same-Grows r _ v refl refl refl

submit-Grows : {g : Game} (c : Control g) (r : Room g) → Dated r → Grows r (submit c r).0
unfolding submit
submit-Grows c r v = same-Grows r _ v (ground arith) (ground arith) (ground arith)

input-Grows :
    {g : Game} (from received : ℕ) (intent : g.Input) (r : Room g)
    → Dated r
    → Grows r (input from intent received r).0
unfolding input
input-Grows {g = g} from received intent r v = elim (Option-cases (lookup from r.members)) [
  | inl e ↦ same-Grows r _ v (ground arith) (ground arith) (ground arith)
  | inr (b, e) ↦
      let waits =
        Waits-snoc r.generation (movement from b.generation intent received) r.inputs v.waits
          (lookup-Bound r.generation from b r.members v.bound e) in
      let old = v.waits in let bound = v.bound in ground arith
]

step-Grows :
    {g : Game} (r : Room g) (a : Action g)
    → Dated r
    → r.generation + 1 < 2 ^ 64
    → Grows r (step r a).0
unfolding step select_tick select_cancel select_timer
step-Grows r (submits c) v h = submit-Grows c r v
step-Grows r (inputs_ from intent received) v h = input-Grows from received intent r v
step-Grows r (proceeds now) v h = proceed-Grows now r r.phase v h
step-Grows r _ v h = same-Grows r _ v (ground arith) (ground arith) (ground arith)

run-Grows :
    {g : Game} (r : Room g) (as_ : List (Action g))
    → Dated r
    → r.generation + length as_ < 2 ^ 64
    → Dated (run r as_).0 × ((run r as_).0.generation ≤ r.generation + length as_)
unfolding run
run-Grows r [] v h = (v, omega arith)
run-Grows r (a ∷ as_) v h =
    let (v', slow) = step-Grows r a v (omega arith) in
    let (v'', slower) = run-Grows (step r a).0 as_ v' (omega arith) in (v'', omega arith)

-- Take a room at any point of its life at which a session is not in it, fewer than 2^64 steps after
-- its start. No input queued by then carries a generation above the room's, and every input of that
-- session that is applied later carries one above it: what the session sent before it left is
-- dropped, also when it joins again.
pub stale_dropped :
    {g : Game} (config : Config) (world : g.World) (before later : List (Action g)) (session : ℕ)
    → length before + length later < 2 ^ 64
    → lookup session (run (start config world) before).0.members ≡ none
    → let r = (run (start config world) before).0 in
      Waits r.generation r.inputs × All (IsNewer session r.generation) (run r later).1
unfolding start
stale_dropped {g = g} config world before later session h out =
    let (v, slow) =
      run-Grows (start config world) before (record { waits = tt; bound = tt }) (omega arith) in
    let r = (run (start config world) before).0 in
    let gone : Gone session r.generation r = record {
      grown = omega arith;
      member = subst (IsAbove r.generation) (sym out) tt;
    } in
    (v.waits, run-Stays session r.generation r later gone (omega arith))
