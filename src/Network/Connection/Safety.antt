-- ===== src/Network/Connection/Safety.antt =====
-- server.go: what no schedule of a connection does.
use the_return_of_the_odysse.Base.{
  ℕ, suc, ◌+◌, ◌≤◌, ◌≡◌, ◌≢◌, true, false, List, [], ◌∷◌, ◌++◌, arith, length, length-append, All,
  All-append,
}
use the_return_of_the_odysse.Network.Connection.{
  out_capacity, SendPhase, unlocked, checked, Connection, Output, socket_closed, removed, panicked,
  Teardown, intact, dead, over, new_connection, Action, step, run, sends, queues,
}

abbrev pub IsLocked : SendPhase → Type 0
IsLocked unlocked = ⊥
IsLocked (checked f) = Unit

pub record Inv (c : Connection) : Type 0 where
  pub queue_dead : c.queue_closed ≡ true → c.closed ≡ true
  pub torn_dead : c.teardown ≢ intact → c.closed ≡ true
  pub locked_open : IsLocked c.phase → c.queue_closed ≡ false
  pub bounded : length c.out ≤ out_capacity

pub new_connection-Inv : Inv new_connection
unfolding new_connection
new_connection-Inv = ground arith

step-Inv : (c : Connection) (a : Action) → Inv c → Inv (step c a).0
unfolding step
step-Inv c (sends frame) v = ground arith
step-Inv c queues v = grind (arith, length-append)
step-Inv c _ v = ground arith

step-quiet : (c : Connection) (a : Action) → Inv c → All (λ o. o ≢ panicked) (step c a).1
unfolding step
step-quiet c (sends frame) v = ground arith
step-quiet c _ v = ground arith

-- In every schedule from a new connection, however `Send`, `Close` and `CloseAfterFlush` fall, no
-- frame is ever sent on the closed queue, the queue never passes its capacity, and a connection
-- whose queue is closed or whose socket is closed counts as closed.
pub run-safe :
    (c : Connection) (as_ : List Action)
    → Inv c
    → Inv (run c as_).0 × All (λ o. o ≢ panicked) (run c as_).1
unfolding run
run-safe c [] v = (v, tt)
run-safe c (a ∷ as_) v =
    let (v', quiet) = run-safe (step c a).0 as_ (step-Inv c a v) in
    (
      v',
      All-append (λ o. o ≢ panicked) (step c a).1 (run (step c a).0 as_).1 (step-quiet c a v) quiet,
    )

-- How often the socket was closed and `onClose` was called.
abbrev pub socket_closes : List Output → ℕ
socket_closes [] = 0
socket_closes (socket_closed ∷ os) = suc (socket_closes os)
socket_closes (_ ∷ os) = socket_closes os

abbrev pub removals : List Output → ℕ
removals [] = 0
removals (removed ∷ os) = suc (removals os)
removals (_ ∷ os) = removals os

socket_closes-append :
    (xs ys : List Output) → socket_closes (xs ++ ys) ≡ socket_closes xs + socket_closes ys
socket_closes-append [] ys = omega arith
socket_closes-append (socket_closed ∷ xs) ys = omega (arith, socket_closes-append xs ys)
socket_closes-append (_ ∷ xs) ys = socket_closes-append xs ys

removals-append : (xs ys : List Output) → removals (xs ++ ys) ≡ removals xs + removals ys
removals-append [] ys = omega arith
removals-append (removed ∷ xs) ys = omega (arith, removals-append xs ys)
removals-append (_ ∷ xs) ys = removals-append xs ys

-- How often the socket is still to be closed, and `onClose` still to be called.
abbrev pub plugged : Teardown → ℕ
plugged intact = 1
plugged dead = 1
plugged _ = 0

abbrev pub listed : Teardown → ℕ
listed over = 0
listed _ = 1

step-tears :
    (c : Connection) (a : Action)
    → (socket_closes (step c a).1 + plugged (step c a).0.teardown ≡ plugged c.teardown)
      × (removals (step c a).1 + listed (step c a).0.teardown ≡ listed c.teardown)
unfolding step
step-tears c (sends frame) = ground arith
step-tears c _ = ground arith

-- Whatever the schedule, the socket is closed and `onClose` runs at most once in a connection's
-- life: once if that was still to come at the start and is done at the end, and not at all
-- otherwise; what was done before is not done again.
pub run-tears :
    (c : Connection) (as_ : List Action)
    → (socket_closes (run c as_).1 + plugged (run c as_).0.teardown ≡ plugged c.teardown)
      × (removals (run c as_).1 + listed (run c as_).0.teardown ≡ listed c.teardown)
unfolding run
run-tears c [] = (omega arith, omega arith)
run-tears c (a ∷ as_) =
    let (c', seen) = step c a in
    let (last, more) = run c' as_ in
    let (here, here') = step-tears c a in
    let (later, later') = run-tears c' as_ in
    (
      omega (arith, here, later, socket_closes-append seen more),
      omega (arith, here', later', removals-append seen more),
    )
