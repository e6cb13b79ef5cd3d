-- ===== src/Persistence/Writer.antt =====
-- server/internal/persistence/result_writer.go. `Submit` takes two actions, up to its `select` and
-- the counting after it; the two halves of `Shutdown` and the steps of the worker goroutine `run`
-- are one each. Every interleaving is a list of them. What the sinks,
-- the clock and the race between a cancelled context and a timer answer comes with the action.
-- `E` is `ResultEnvelope`, and `valid` its `Validate`. An error is told by the sentinel that
-- `errors.Is` finds in it.
pub mod Delivery
pub mod Accounts
pub mod Draining
mod Tests
use the_return_of_the_odysse.Base.{
  ℕ, suc, ◌+◌, ◌-◌, Bool, true, false, not, ◌&&◌, ◌||◌, Option, none, some, List, [], ◌∷◌, ◌++◌,
  ltb, leb, ◌==◌, if◌then◌else◌, length,
}
use the_return_of_the_odysse.Base.Words.{u64}
use the_return_of_the_odysse.Base.Results.{Result, ok, err, reject_if, ◌>>◌}

pub data Error : Type 0 where
  invalid_result_writer : Error

pub data Cause : Type 0 where
  canceled conflict invalid backend : Cause

-- What `ResultSink.Persist` returns.
pub data Answer : Type 0 where
  inserts repeats : Answer
  refuses : Cause → Answer

-- An error of `FailureSink.StoreFailure`, or the cancelled context instead of one.
pub data Fault : Type 0 where
  context_canceled : Fault
  store_fault : ℕ → Fault

-- Where the worker stands: in `persist` before an attempt or in the wait after one, with the
-- attempts used; in `storeFailure`, before and after its first try.
pub data Phase (E : Type 0) : Type 0 where
  idle finished : Phase E
  trying waiting : E → ℕ → Phase E
  failing : E → ℕ → Cause → Phase E
  rescuing : E → ℕ → Cause → Fault → Phase E

-- `accepting` and `refusing` are the calls of `Submit` that hold the read lock, with the envelope
-- queued or the queue found full, and have not counted it yet.
pub record Writer (E : Type 0) : Type 0 where
  pub queue_capacity : ℕ
  pub max_attempts : ℕ
  pub queue : List E
  pub closed : Bool
  pub cancelled : Bool
  pub phase : Phase E
  pub accepting : ℕ
  pub refusing : ℕ
  pub in_flight : ℕ
  pub submitted : ℕ
  pub persisted : ℕ
  pub idempotent : ℕ
  pub retries : ℕ
  pub failed : ℕ
  pub rejected : ℕ
  pub dead_letter_failures : ℕ
  pub first_dead_letter_error : Option Fault

-- What the callers and the sinks see. `kept` is in dead-letter storage, with its attempts and kind.
pub data Event (E : Type 0) : Type 0 where
  accepted refused inserted repeated retried : E → Event E
  kept lost : E → ℕ → Cause → Event E

abbrev pub Outcome : Type 0 → Type 0
Outcome E = Writer E × List (Event E)

-- `ResultWriterOptions.Validate` on the two counts; durations and the sink are not modelled.
abbrev pub bad_options : ℕ → ℕ → Bool
bad_options capacity attempts =
    ltb capacity 1 || ltb 100000 capacity || ltb attempts 1 || ltb 100 attempts

-- `NewResultWriter`
pub new_writer : {E : Type 0} → ℕ → ℕ → Result Error (Writer E)
new_writer capacity attempts = do
  reject_if (bad_options capacity attempts) invalid_result_writer
  ok (record {
    queue_capacity = capacity;
    max_attempts = attempts;
    queue = [];
    closed = false;
    cancelled = false;
    phase = idle;
    accepting = 0;
    refusing = 0;
    in_flight = 0;
    submitted = 0;
    persisted = 0;
    idempotent = 0;
    retries = 0;
    failed = 0;
    rejected = 0;
    dead_letter_failures = 0;
    first_dead_letter_error = none;
  })

abbrev pub refuse : {E : Type 0} → E → Writer E → Outcome E
refuse e w = (record w { rejected = u64 (w.rejected + 1) }, refused e ∷ [])

-- `Submit` up to its `select`. The two early refusals touch nothing else that is shared.
pub submit : {E : Type 0} → (E → Bool) → E → Writer E → Outcome E
submit valid e w =
    if not (valid e)
    then refuse e w
    else if w.closed
    then refuse e w
    else if ltb (length w.queue) w.queue_capacity
    then (record w { queue = w.queue ++ e ∷ []; accepting = w.accepting + 1 }, accepted e ∷ [])
    else (record w { refusing = w.refusing + 1 }, refused e ∷ [])

-- `w.submitted.Add(1)` and the return.
pub count_submitted : {E : Type 0} → Writer E → Writer E
count_submitted w =
    if w.accepting == 0
    then w
    else record w { accepting = w.accepting - 1; submitted = u64 (w.submitted + 1) }

-- `w.rejected.Add(1)` and the return, when the queue was full.
pub count_rejected : {E : Type 0} → Writer E → Writer E
count_rejected w =
    if w.refusing == 0
    then w
    else record w { refusing = w.refusing - 1; rejected = u64 (w.rejected + 1) }

-- `Shutdown` up to its `select`, which waits for the calls of `Submit` that hold the lock, and the
-- branch of an expired context.
pub shut : {E : Type 0} → Writer E → Writer E
shut w = if w.accepting == 0 && w.refusing == 0 then record w { closed = true } else w

pub expire : {E : Type 0} → Writer E → Writer E
expire w = if w.closed then record w { cancelled = true } else w

-- The head of the loop of `run`. At its end the deferred `w.cancel()` runs.
pub take_next : {E : Type 0} → Writer E → Outcome E
take_next w = elim w.queue [
  | [] ↦ if w.closed then (record w { phase = finished; cancelled = true }, []) else (w, [])
  | e ∷ rest ↦ (record w { queue = rest; phase = trying e 0; in_flight = w.in_flight + 1 }, [])
]

-- The end of the loop body of `run`, for an envelope that is dealt with.
abbrev pub done_with : {E : Type 0} → Event E → Writer E → Outcome E
done_with event w = (record w { phase = idle; in_flight = w.in_flight - 1 }, event ∷ [])

abbrev pub is_final : Cause → Bool
is_final conflict = true
is_final invalid = true
is_final _ = false

-- One round of the loop of `persist`. The last attempt breaks out of the loop by its own test.
pub try_once : {E : Type 0} → Answer → E → ℕ → Writer E → Outcome E
try_once answer e used w =
    if w.cancelled then (record w { phase = failing e used canceled }, []) else elim answer [
      | inserts ↦ done_with (inserted e) (record w { persisted = u64 (w.persisted + 1) })
      | repeats ↦ done_with (repeated e) (record w { idempotent = u64 (w.idempotent + 1) })
      | refuses cause ↦
          if is_final cause || used + 1 == w.max_attempts
          then (record w { phase = failing e (used + 1) cause }, [])
          else (
            record w { phase = waiting e (used + 1); retries = u64 (w.retries + 1) },
            retried e ∷ [],
          )
    ]

-- `waitContext` and the test of its result: `true` when the timer fired.
pub wait : {E : Type 0} → Bool → E → ℕ → Writer E → Outcome E
wait fired e used w =
    if fired
    then (record w { phase = trying e used }, [])
    else if w.cancelled
    then (record w { phase = failing e used canceled }, [])
    else (w, [])

-- `storeFailure` up to its first try: `none` when the sink stored the failure.
pub store_failure : {E : Type 0} → Option Fault → E → ℕ → Cause → Writer E → Outcome E
store_failure fault e used cause w =
    let w' = record w { failed = u64 (w.failed + 1) } in
    if w.cancelled
    then (record w' { phase = rescuing e used cause context_canceled }, [])
    else elim fault [
      | none ↦ done_with (kept e used cause) w'
      | some f ↦ (record w' { phase = rescuing e used cause f }, [])
    ]

abbrev pub lose : {E : Type 0} → E → ℕ → Cause → Fault → Writer E → Outcome E
lose e used cause fault w = done_with (lost e used cause) (record w {
  dead_letter_failures = u64 (w.dead_letter_failures + 1);
  first_dead_letter_error = elim w.first_dead_letter_error [
    | none ↦ some fault
    | some first ↦ some first
  ];
})

-- The rest of `storeFailure`, after a first try that failed with `before`.
pub rescue : {E : Type 0} → Option Fault → E → ℕ → Cause → Fault → Writer E → Outcome E
rescue fault e used cause before w =
    if w.cancelled
    then elim fault [ none ↦ done_with (kept e used cause) w | some f ↦ lose e used cause f w ]
    else lose e used cause before w

-- What the outside answers to one step of the worker.
pub record Outside : Type 0 where
  pub answer : Answer
  pub fired : Bool
  pub fault : Option Fault

-- One step of the worker: `run`, `persist` and `storeFailure`.
unfoldable pub work : {E : Type 0} → Outside → Writer E → Outcome E
unfolding take_next try_once wait store_failure rescue
work o w = elim w.phase [
  | idle ↦ take_next w
  | finished ↦ (w, [])
  | trying e used ↦ try_once o.answer e used w
  | waiting e used ↦ wait o.fired e used w
  | failing e used cause ↦ store_failure o.fault e used cause w
  | rescuing e used cause before ↦ rescue o.fault e used cause before w
]

pub data Action (E : Type 0) : Type 0 where
  submits : E → Action E
  counts_submitted counts_rejected shuts expires : Action E
  works : Outside → Action E

unfoldable pub step : {E : Type 0} → (E → Bool) → Writer E → Action E → Outcome E
unfolding submit count_submitted count_rejected shut expire work
step valid w (submits e) = submit valid e w
step valid w counts_submitted = (count_submitted w, [])
step valid w counts_rejected = (count_rejected w, [])
step valid w shuts = (shut w, [])
step valid w expires = (expire w, [])
step valid w (works o) = work o w

unfoldable pub run : {E : Type 0} → (E → Bool) → Writer E → List (Action E) → Outcome E
run valid w [] = (w, [])
run valid w (a ∷ as_) =
    let (w', seen) = step valid w a in let (last, more) = run valid w' as_ in (last, seen ++ more)

-- `shutdownError`, once the worker is done: how many envelopes were lost, and the first reason.
pub shutdown_error : {E : Type 0} → Writer E → Option (ℕ × Option Fault)
shutdown_error w =
    if w.dead_letter_failures == 0
    then none
    else some (w.dead_letter_failures, w.first_dead_letter_error)
