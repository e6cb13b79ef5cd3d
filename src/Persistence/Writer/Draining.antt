-- ===== src/Persistence/Writer/Draining.antt =====
-- result_writer.go: attempts are bounded, and a shutdown drains the queue.
use the_return_of_the_odysse.Base.{
  ℕ, ◌+◌, ◌-◌, ◌*◌, ◌≤◌, ◌<◌, ◌≡◌, ◌≢◌, refl, ap, sym, subst, ◌∙◌, Bool, true, List, [], ◌∷◌, ◌++◌,
  arith, length, map, All, length-append, All-append,
}
use mathlib.Core.List.{append-nil}
use the_return_of_the_odysse.Base.Results.{ok, passes}
use the_return_of_the_odysse.Persistence.Writer.{
  Phase, idle, finished, trying, waiting, failing, rescuing, Writer, Event, kept, lost, bad_options,
  new_writer, Action, submits, works, Outside, work, step, run,
}
use the_return_of_the_odysse.Persistence.Writer.Delivery.{
  pending, taken, ended, taken-append, work-order, run-delivers,
}

-- The attempts used where the worker stands.
abbrev pub IsWithin : {E : Type 0} → ℕ → Phase E → Type 0
IsWithin n idle = Unit
IsWithin n finished = Unit
IsWithin n (trying e used) = used < n
IsWithin n (waiting e used) = used < n
IsWithin n (failing e used c) = used ≤ n
IsWithin n (rescuing e used c f) = used ≤ n

pub record Inv {E : Type 0} (w : Writer E) : Type 0 where
  pub some_attempt : 0 < w.max_attempts
  pub within : IsWithin w.max_attempts w.phase
  pub bounded : length w.queue ≤ w.queue_capacity
  pub cancelled_closed : w.cancelled ≡ true → w.closed ≡ true

-- What a dead letter reports of its attempts.
abbrev pub AtMost : {E : Type 0} → ℕ → Event E → Type 0
AtMost n (kept e used c) = used ≤ n
AtMost n (lost e used c) = used ≤ n
AtMost n _ = Unit

pub new_writer-Inv :
    {E : Type 0} (capacity attempts : ℕ) (w : Writer E)
    → new_writer capacity attempts ≡ ok w
    → Inv w
unfolding new_writer
new_writer-Inv capacity attempts w h =
    let (good, h1) = passes (bad_options capacity attempts) _ _ h in ground arith

work-Inv : {E : Type 0} (o : Outside) (w : Writer E) → Inv w → Inv (work o w).0
unfolding work
work-Inv o w v = ground arith

work-AtMost :
    {E : Type 0} (o : Outside) (w : Writer E) → Inv w → All (AtMost w.max_attempts) (work o w).1
unfolding work
work-AtMost o w v = ground arith

step-Inv :
    {E : Type 0} (valid : E → Bool) (w : Writer E) (a : Action E) → Inv w → Inv (step valid w a).0
unfolding step
step-Inv valid w (submits e) v = grind (arith, length-append)
step-Inv valid w (works o) v = work-Inv o w v
step-Inv valid w _ v = ground arith

work-fixed : {E : Type 0} (o : Outside) (w : Writer E) → (work o w).0.max_attempts ≡ w.max_attempts
unfolding work
work-fixed o w = ground arith

step-fixed :
    {E : Type 0} (valid : E → Bool) (w : Writer E) (a : Action E)
    → (step valid w a).0.max_attempts ≡ w.max_attempts
unfolding step
step-fixed valid w (works o) = work-fixed o w
step-fixed valid w _ = ground arith

step-AtMost :
    {E : Type 0} (valid : E → Bool) (w : Writer E) (a : Action E)
    → Inv w
    → All (AtMost w.max_attempts) (step valid w a).1
unfolding step
step-AtMost valid w (works o) v = work-AtMost o w v
step-AtMost valid w _ v = ground arith

-- In every interleaving the queue stays within its capacity, the worker and every dead letter,
-- kept or lost, have used at most the configured number of attempts, and the worker's context is
-- cancelled only after the writer was closed.
pub run-attempts :
    {E : Type 0} (valid : E → Bool) (w : Writer E) (as_ : List (Action E))
    → Inv w
    → Inv (run valid w as_).0 × All (AtMost w.max_attempts) (run valid w as_).1
unfolding run
run-attempts valid w [] v = (v, tt)
run-attempts valid w (a ∷ as_) v =
    let (v', later) = run-attempts valid (step valid w a).0 as_ (step-Inv valid w a v) in
    (
      v',
      All-append (AtMost w.max_attempts) (step valid w a).1 (run valid (step valid w a).0 as_).1
          (step-AtMost valid w a v)
          (subst (λ n. All (AtMost n) (run valid (step valid w a).0 as_).1) (step-fixed valid w a)
            later),
    )

-- How many steps of the worker are left at most, when every wait ends.
abbrev pub phase_cost : {E : Type 0} → ℕ → Phase E → ℕ
phase_cost n idle = 1
phase_cost n finished = 0
phase_cost n (trying e used) = 2 * (n - used) + 4
phase_cost n (waiting e used) = 2 * (n - used) + 5
phase_cost n (failing e used c) = 3
phase_cost n (rescuing e used c f) = 2

abbrev pub queue_cost : {E : Type 0} → ℕ → List E → ℕ
queue_cost n [] = 0
queue_cost n (e ∷ es) = 2 * n + 4 + queue_cost n es

abbrev pub steps_left : {E : Type 0} → Writer E → ℕ
steps_left w = phase_cost w.max_attempts w.phase + queue_cost w.max_attempts w.queue

abbrev pub Fires : Outside → Type 0
Fires o = o.fired ≡ true

-- The end of the worker: nothing is queued.
abbrev pub IsDone : {E : Type 0} → Writer E → Type 0
IsDone w = (w.phase ≡ finished) × (w.queue ≡ [])

record Ending {E : Type 0} (w : Writer E) : Type 0 where
  is_closed : w.closed ≡ true
  ending : w.phase ≡ finished → w.queue ≡ []

work-falls :
    {E : Type 0} (o : Outside) (w : Writer E)
    → Fires o
    → Inv w
    → Ending w
    → (steps_left (work o w).0 ≤ steps_left w - 1) × Ending (work o w).0
unfolding work
work-falls o w f v d = ground arith

steps_left-zero : {E : Type 0} (w : Writer E) → Ending w → steps_left w ≡ 0 → IsDone w
steps_left-zero w d h = ground arith

drains :
    {E : Type 0} (valid : E → Bool) (w : Writer E) (os : List Outside)
    → All Fires os
    → Inv w
    → Ending w
    → steps_left w ≤ length os
    → IsDone (run valid w (map works os)).0 × (taken (run valid w (map works os)).1 ≡ [])
unfolding run step
drains valid w [] f v d h = (steps_left-zero w d (omega arith), refl)
drains valid w (o ∷ os) f v d h =
    let (less, d') = work-falls o w f.0 v d in
    let (done, none_taken) = drains valid (work o w).0 os f.1 (work-Inv o w v) d' (omega arith) in
    (done, taken-append (work o w).1 _ ∙ rw ((work-order o w).1, none_taken) refl)

-- After a shutdown has closed the writer, the worker reaches its end whatever the sinks answer, and
-- no later than `steps_left` of its steps, if each wait for a retry ends. It leaves nothing behind:
-- what was pending is done with, in its order.
pub shutdown_drains :
    {E : Type 0} (valid : E → Bool) (w : Writer E) (os : List Outside)
    → All Fires os
    → Inv w
    → w.closed ≡ true
    → w.phase ≢ finished
    → steps_left w ≤ length os
    → let (last, seen) = run valid w (map works os) in IsDone last × (ended seen ≡ pending w)
shutdown_drains valid w os f v c p h =
    let (done, none_taken) =
      drains valid w os f v (record { is_closed = c; ending = λ e. absurd (p e) }) h in
    let (last, seen) = run valid w (map works os) in
    let left : pending last ≡ [] = rw (done.0, done.1) refl in
    (
      done,
      sym (append-nil (ended seen))
          ∙ ap (◌++◌ (ended seen)) (sym left)
          ∙ sym (run-delivers valid w (map works os))
          ∙ ap (◌++◌ (pending w)) none_taken
          ∙ append-nil (pending w),
    )
