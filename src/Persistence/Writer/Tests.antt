-- ===== src/Persistence/Writer/Tests.antt =====
-- result_writer.go on concrete histories of a writer of three envelopes and two attempts.
use the_return_of_the_odysse.Base.{
  ℕ, ◌≡◌, ◌<◌, ◌^◌, refl, Bool, true, false, none, some, List, [], ◌∷◌, ◌++◌, arith, map, All, ltb,
}
use the_return_of_the_odysse.Base.Results.{ok}
use the_return_of_the_odysse.Persistence.Writer.{
  idle, Writer, Action, submits, counts_submitted, shuts, expires, works, Outside, inserts, refuses,
  backend, store_fault, new_writer, submit, count_submitted, count_rejected, shut, expire, work,
  take_next, try_once, wait, store_failure, rescue, step, run,
}
use the_return_of_the_odysse.Persistence.Writer.Delivery.{taken, ended, pending, run-delivers}
use the_return_of_the_odysse.Persistence.Writer.Accounts.{
  empty_tally, notes, Accounts, run-Accounts,
}
use the_return_of_the_odysse.Persistence.Writer.Draining.{
  Inv, AtMost, IsDone, Fires, new_writer-Inv, run-attempts, shutdown_drains,
}

abbrev fresh : Writer ℕ
fresh = record {
  queue_capacity = 3;
  max_attempts = 2;
  queue = [];
  closed = false;
  cancelled = false;
  phase = idle;
  accepting = 0;
  refusing = 0;
  in_flight = 0;
  submitted = 0;
  persisted = 0;
  idempotent = 0;
  retries = 0;
  failed = 0;
  rejected = 0;
  dead_letter_failures = 0;
  first_dead_letter_error = none;
}

fresh_made : new_writer 3 2 ≡ ok fresh
unfolding new_writer
fresh_made = refl

abbrev small : ℕ → Bool
small e = ltb e 100

abbrev stores : Outside
stores = record { answer = inserts; fired = true; fault = none }

abbrev fails : Outside
fails = record { answer = refuses backend; fired = true; fault = some (store_fault 5) }

-- One envelope is stored, one fails twice and is lost, one is refused, one stays in the queue.
abbrev day : List (Action ℕ)
day =
    submits 7
    ∷ works stores
    ∷ works stores
    ∷ counts_submitted
    ∷ submits 8
    ∷ counts_submitted
    ∷ submits 100
    ∷ works fails
    ∷ works fails
    ∷ works fails
    ∷ works fails
    ∷ works fails
    ∷ works fails
    ∷ submits 9
    ∷ shuts
    ∷ counts_submitted
    ∷ shuts
    ∷ expires
    ∷ submits 4
    ∷ []

day_ends : ended (run small fresh day).1 ≡ 7 ∷ 8 ∷ []
unfolding run step submit count_submitted count_rejected shut expire work take_next try_once wait
    store_failure rescue
day_ends = refl

run-delivers_example :
    pending fresh ++ taken (run small fresh day).1
    ≡ ended (run small fresh day).1 ++ pending (run small fresh day).0
run-delivers_example = run-delivers small fresh day

few_taken : (notes (run small fresh day).1 empty_tally).taken < 2 ^ 64
unfolding run step submit count_submitted count_rejected shut expire work take_next try_once wait
    store_failure rescue
few_taken = omega arith

run-Accounts_example : Accounts (notes (run small fresh day).1 empty_tally) (run small fresh day).0
run-Accounts_example = run-Accounts small 3 2 fresh day fresh_made few_taken

run-attempts_example : Inv (run small fresh day).0 × All (AtMost 2) (run small fresh day).1
run-attempts_example = run-attempts small fresh day (new_writer-Inv 3 2 fresh fresh_made)

abbrev shutting : Writer ℕ
shutting = record fresh { closed = true; queue = 7 ∷ []; submitted = 1 }

shutting-Inv : Inv shutting
shutting-Inv = ground arith

abbrev rounds : List Outside
rounds =
    fails ∷ fails ∷ fails ∷ fails ∷ fails ∷ fails ∷ stores ∷ stores ∷ stores ∷ stores ∷ stores ∷ []

rounds-Fires : All Fires rounds
rounds-Fires = ground arith

shutdown_drains_example :
    let (last, seen) = run small shutting (map works rounds) in
    IsDone last × (ended seen ≡ pending shutting)
shutdown_drains_example =
    shutdown_drains small shutting rounds rounds-Fires shutting-Inv refl (ground arith)
      (omega arith)
