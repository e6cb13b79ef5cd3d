-- ===== src/Persistence/Writer/Accounts.antt =====
-- result_writer.go: the counters of `Stats` against what happened.
use the_return_of_the_odysse.Base.{
  ℕ, suc, ◌+◌, ◌-◌, ◌^◌, ◌<◌, ◌≤◌, ◌≡◌, ◌⊎◌, refl, Bool, none, some, List, [], ◌∷◌, ◌++◌, arith,
  length, length-append,
}
use the_return_of_the_odysse.Base.Words.{u64}
use the_return_of_the_odysse.Base.Results.{ok, passes}
use the_return_of_the_odysse.Persistence.Writer.{
  Phase, trying, waiting, failing, rescuing, Writer, Event, accepted, refused, inserted, repeated,
  retried, kept, lost, bad_options, new_writer, Action, submits, works, Outside, work, step, run,
  shutdown_error,
}

-- How often each kind of event stands in a history.
pub record Tally : Type 0 where
  pub taken : ℕ
  pub refusals : ℕ
  pub fresh : ℕ
  pub repeats : ℕ
  pub letters : ℕ
  pub losses : ℕ
  pub again : ℕ

abbrev pub note : {E : Type 0} → Event E → Tally → Tally
note (accepted e) t = record t { taken = suc t.taken }
note (refused e) t = record t { refusals = suc t.refusals }
note (inserted e) t = record t { fresh = suc t.fresh }
note (repeated e) t = record t { repeats = suc t.repeats }
note (retried e) t = record t { again = suc t.again }
note (kept e n c) t = record t { letters = suc t.letters }
note (lost e n c) t = record t { losses = suc t.losses }

abbrev pub empty_tally : Tally
empty_tally = record {
  taken = 0;
  refusals = 0;
  fresh = 0;
  repeats = 0;
  letters = 0;
  losses = 0;
  again = 0;
}

abbrev pub notes : {E : Type 0} → List (Event E) → Tally → Tally
notes [] t = t
notes (e ∷ es) t = notes es (note e t)

notes-append :
    {E : Type 0} (xs ys : List (Event E)) (t : Tally) → notes (xs ++ ys) t ≡ notes ys (notes xs t)
notes-append [] ys t = refl
notes-append (e ∷ xs) ys t = notes-append xs ys (note e t)

-- Whether the worker has counted its envelope as failed, and whether it has one it has not.
abbrev pub at_rescue : {E : Type 0} → Phase E → ℕ
at_rescue (rescuing e n c f) = 1
at_rescue _ = 0

abbrev pub undecided : {E : Type 0} → Phase E → ℕ
undecided (trying e n) = 1
undecided (waiting e n) = 1
undecided (failing e n c) = 1
undecided _ = 0

-- The counters agree with the tally, up to their 64 bits.
record Agrees {E : Type 0} (t : Tally) (w : Writer E) : Type 0 where
  accepting_ : w.accepting ≤ t.taken
  refusing_ : w.refusing ≤ t.refusals
  taken_ : w.submitted ≡ u64 (t.taken - w.accepting)
  refused_ : w.rejected ≡ u64 (t.refusals - w.refusing)
  again_ : w.retries ≡ u64 t.again
  fresh_ : w.persisted ≡ u64 t.fresh
  repeats_ : w.idempotent ≡ u64 t.repeats
  failed_ : w.failed ≡ u64 (t.letters + t.losses + at_rescue w.phase)
  lost_ : w.dead_letter_failures ≡ u64 t.losses
  flight_ : w.in_flight ≡ at_rescue w.phase + undecided w.phase
  balance :
      t.taken
      ≡ t.fresh
        + t.repeats
        + t.letters
        + t.losses
        + at_rescue w.phase
        + undecided w.phase
        + length w.queue

work-Agrees :
    {E : Type 0} (t : Tally) (o : Outside) (w : Writer E)
    → Agrees t w
    → Agrees (notes (work o w).1 t) (work o w).0
unfolding work
work-Agrees t o w g = ground arith

step-Agrees :
    {E : Type 0} (valid : E → Bool) (t : Tally) (w : Writer E) (a : Action E)
    → Agrees t w
    → Agrees (notes (step valid w a).1 t) (step valid w a).0
unfolding step
step-Agrees valid t w (submits e) g = grind (arith, length-append)
step-Agrees valid t w (works o) g = work-Agrees t o w g
step-Agrees valid t w _ g = ground arith

run-Agrees :
    {E : Type 0} (valid : E → Bool) (t : Tally) (w : Writer E) (as_ : List (Action E))
    → Agrees t w
    → Agrees (notes (run valid w as_).1 t) (run valid w as_).0
unfolding run
run-Agrees valid t w [] g = g
run-Agrees valid t w (a ∷ as_) g =
    let (w', seen) = step valid w a in
    rw (notes-append seen (run valid w' as_).1 t)
      (run-Agrees valid (notes seen t) w' as_ (step-Agrees valid t w a g))

new_writer-Agrees :
    {E : Type 0} (capacity attempts : ℕ) (w : Writer E)
    → new_writer capacity attempts ≡ ok w
    → Agrees empty_tally w
unfolding new_writer
new_writer-Agrees capacity attempts w h =
    let (good, h1) = passes (bad_options capacity attempts) _ _ h in ground arith

-- The counters of a writer with the tally `t` of its history.
abbrev pub Accounts : {E : Type 0} → Tally → Writer E → Type 0
Accounts t w =
    (w.submitted + w.accepting
      ≡ w.persisted + w.idempotent + w.failed + undecided w.phase + length w.queue)
    × (w.submitted + w.accepting ≡ t.taken)
    × (w.rejected ≡ u64 (t.refusals - w.refusing))
    × (w.retries ≡ u64 t.again)
    × (w.persisted ≡ t.fresh)
    × (w.idempotent ≡ t.repeats)
    × (w.failed ≡ t.letters + t.losses + at_rescue w.phase)
    × (w.in_flight ≡ at_rescue w.phase + undecided w.phase)
    × (((t.losses ≡ 0) × (shutdown_error w ≡ none))
        ⊎ ((0 < t.losses) × (shutdown_error w ≡ some (t.losses, w.first_dead_letter_error))))

report :
    {E : Type 0} (t : Tally) (w : Writer E)
    → w.dead_letter_failures ≡ t.losses
    → ((t.losses ≡ 0) × (shutdown_error w ≡ none))
      ⊎ ((0 < t.losses) × (shutdown_error w ≡ some (t.losses, w.first_dead_letter_error)))
unfolding shutdown_error
report t w e = ground arith

Agrees-Accounts :
    {E : Type 0} (t : Tally) (w : Writer E) → Agrees t w → t.taken < 2 ^ 64 → Accounts t w
Agrees-Accounts t w g small = (
  omega arith,
  omega arith,
  g.refused_,
  g.again_,
  omega arith,
  omega arith,
  omega arith,
  omega arith,
  report t w (omega arith),
)

-- In any history of a new writer with fewer than 2^64 accepted envelopes, between two steps of the
-- worker, the counters that `Stats` reads are those of what happened: everything queued so far,
-- counted or about to be counted by its `Submit`, was persisted, found present, counted as failed, is
-- in the worker's hands or is queued; the refusals and the retries are counted modulo 2^64, the
-- refusals of a full queue once their `Submit` has come to it; `Shutdown` reports how many envelopes
-- were lost, if any were.
pub run-Accounts :
    {E : Type 0} (valid : E → Bool) (capacity attempts : ℕ) (w : Writer E) (as_ : List (Action E))
    → new_writer capacity attempts ≡ ok w
    → (notes (run valid w as_).1 empty_tally).taken < 2 ^ 64
    → Accounts (notes (run valid w as_).1 empty_tally) (run valid w as_).0
run-Accounts valid capacity attempts w as_ h small =
    Agrees-Accounts _ _
      (run-Agrees valid empty_tally w as_ (new_writer-Agrees capacity attempts w h)) small
