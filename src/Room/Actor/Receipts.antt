-- ===== src/Room/Actor/Receipts.antt =====
-- room.go: every command that was taken gets exactly one answer, also when the room closes.
use the_return_of_the_odysse.Base.{
  ℕ, zero, suc, ◌≡◌, refl, ap, sym, ◌∙◌, Option, none, some, List, [], ◌∷◌, ◌++◌, arith, ◌≡⟨◌⟩◌, ◌∎,
}
use mathlib.Core.List.{append-nil, append_assoc}
use the_return_of_the_odysse.Room.{
  Game, Control, Movement, taking_controls, taking_inputs, Room, Sight, queued, answered, submit,
  input,
}
use the_return_of_the_odysse.Room.Actor.{
  joined, heeded, join, leave, serve, take_control, take_input, move, drain, simulate, finish,
  select_tick, select_cancel, select_timer, proceed, Action, submits, inputs_, proceeds, ticks,
  sees_cancel, sees_timer, step, run,
}

-- The commands that were queued, and those that were answered.
abbrev pub taken : {g : Game} → List (Sight g) → List (Control g)
taken [] = []
taken (queued c ∷ ss) = c ∷ taken ss
taken (_ ∷ ss) = taken ss

abbrev pub replied : {g : Game} → List (Sight g) → List (Control g)
replied [] = []
replied (answered c a ∷ ss) = c ∷ replied ss
replied (_ ∷ ss) = replied ss

pub taken-append : {g : Game} (xs ys : List (Sight g)) → taken (xs ++ ys) ≡ taken xs ++ taken ys
taken-append [] ys = refl
taken-append (queued c ∷ xs) ys = ap (◌∷◌ c) (taken-append xs ys)
taken-append (_ ∷ xs) ys = taken-append xs ys

pub replied-append :
    {g : Game} (xs ys : List (Sight g)) → replied (xs ++ ys) ≡ replied xs ++ replied ys
replied-append [] ys = refl
replied-append (answered c a ∷ xs) ys = ap (◌∷◌ c) (replied-append xs ys)
replied-append (_ ∷ xs) ys = replied-append xs ys

pub joined-controls :
    {g : Game} (session player : ℕ) (answer : Option ℕ × g.World) (r : Room g)
    → ((joined session player answer r).0.controls ≡ r.controls)
      × ((joined session player answer r).0.phase ≡ r.phase)
joined-controls session player (none, world) r = (refl, refl)
joined-controls session player (some e, world) r = (refl, refl)

pub serve-controls :
    {g : Game} (c : Control g) (r : Room g)
    → ((serve c r).0.controls ≡ r.controls) × ((serve c r).0.phase ≡ r.phase)
unfolding serve join leave
serve-controls {g = g} c r = ground (arith, joined-controls c.session_id)

pub take_control-order :
    {g : Game} (left now : ℕ) (r : Room g) (cs : List (Control g))
    → r.controls ≡ cs
    → (cs ≡ replied (take_control left now r).1 ++ (take_control left now r).0.controls)
      × (taken (take_control left now r).1 ≡ [])
unfolding take_control
take_control-order zero now r cs e = (sym e, refl)
take_control-order (suc left) now r [] e = rw e (refl, refl)
take_control-order (suc left) now r (c ∷ cs) e = rw e (
  ap (◌∷◌ c)
      (sym (serve-controls c (record r { controls = cs; phase = taking_controls left now })).0),
  refl,
)

heeded-controls :
    {g : Game} (m : Movement g) (player : ℕ) (answer : Option ℕ × g.World) (r : Room g)
    → ((heeded m player answer r).0.controls ≡ r.controls)
      × (taken (heeded m player answer r).1 ≡ [])
      × (replied (heeded m player answer r).1 ≡ [])
heeded-controls m player (none, world) r = (refl, refl, refl)
heeded-controls m player (some e, world) r = (refl, refl, refl)

pub move-controls :
    {g : Game} (m : Movement g) (now : ℕ) (r : Room g)
    → ((move m now r).0.controls ≡ r.controls)
      × (taken (move m now r).1 ≡ [])
      × (replied (move m now r).1 ≡ [])
unfolding move
move-controls m now r = ground (arith, heeded-controls m)

pub take_input-controls :
    {g : Game} (left now : ℕ) (r : Room g)
    → ((take_input left now r).0.controls ≡ r.controls)
      × (taken (take_input left now r).1 ≡ [])
      × (replied (take_input left now r).1 ≡ [])
unfolding take_input
take_input-controls zero now r = (refl, refl, refl)
take_input-controls {g = g} (suc left) now r =
    let heard_ = λ (m : Movement g) (rest : List (Movement g)).
      move-controls m now (record r { inputs = rest; phase = taking_inputs left now }) in
    ground (arith, heard_)

drain-order :
    {g : Game} (r : Room g)
    → (r.controls ≡ replied (drain r).1 ++ (drain r).0.controls) × (taken (drain r).1 ≡ [])
unfolding drain
drain-order r = ground arith

proceed-order :
    {g : Game} (now : ℕ) (r : Room g)
    → (r.controls ≡ replied (proceed now r).1 ++ (proceed now r).0.controls)
      × (taken (proceed now r).1 ≡ [])
unfolding proceed simulate finish
proceed-order {g = g} now r =
    let served = λ (left at : ℕ). take_control-order left at r r.controls refl in
    let moves = λ (left at : ℕ). take_input-controls left at r in
    let drained = drain-order r in ground (arith, served, moves, drained)

input-receipts :
    {g : Game} (session received : ℕ) (intent : g.Input) (r : Room g)
    → ((input session intent received r).0.controls ≡ r.controls)
      × (taken (input session intent received r).1 ≡ [])
      × (replied (input session intent received r).1 ≡ [])
unfolding input
input-receipts session received intent r = ground arith

pub step-receipts :
    {g : Game} (r : Room g) (a : Action g)
    → r.controls ++ taken (step r a).1 ≡ replied (step r a).1 ++ (step r a).0.controls
unfolding step submit select_tick select_cancel select_timer
step-receipts r (submits c) = ground (arith, append-nil r.controls)
step-receipts r (inputs_ session intent received) =
    let (same, none_taken, none_told) = input-receipts session received intent r in
    rw (none_taken, none_told, same) (append-nil r.controls)
step-receipts r (proceeds now) =
    rw (proceed-order now r).1 (append-nil r.controls ∙ (proceed-order now r).0)
step-receipts r (ticks now) = ground (arith, append-nil r.controls)
step-receipts r sees_cancel = ground (arith, append-nil r.controls)
step-receipts r sees_timer = ground (arith, append-nil r.controls)
step-receipts r _ = append-nil r.controls

-- In every interleaving of commands, inputs, ticks and the end of the room, the commands queued at
-- the start followed by those taken later are exactly those answered followed by those still
-- queued, in the same order: each receipt gets its answer once, and commands take effect in the
-- order in which they were taken.
pub run-receipts :
    {g : Game} (r : Room g) (as_ : List (Action g))
    → r.controls ++ taken (run r as_).1 ≡ replied (run r as_).1 ++ (run r as_).0.controls
unfolding run
run-receipts r [] = append-nil r.controls
run-receipts r (a ∷ as_) =
    let (r', seen) = step r a in
    let (last, more) = run r' as_ in
    r.controls ++ taken (seen ++ more)
    ≡⟨ ap (◌++◌ r.controls) (taken-append seen more) ⟩ r.controls ++ (taken seen ++ taken more)
    ≡⟨ sym (append_assoc r.controls (taken seen) (taken more)) ⟩
      (r.controls ++ taken seen) ++ taken more
    ≡⟨ ap (λ xs. xs ++ taken more) (step-receipts r a) ⟩ (replied seen ++ r'.controls) ++ taken more
    ≡⟨ append_assoc (replied seen) r'.controls (taken more) ⟩
      replied seen ++ (r'.controls ++ taken more)
    ≡⟨ ap (◌++◌ (replied seen)) (run-receipts r' as_) ⟩
      replied seen ++ (replied more ++ last.controls)
    ≡⟨ sym (append_assoc (replied seen) (replied more) last.controls) ⟩
      (replied seen ++ replied more) ++ last.controls
    ≡⟨ ap (λ xs. xs ++ last.controls) (sym (replied-append seen more)) ⟩
      replied (seen ++ more) ++ last.controls ∎
