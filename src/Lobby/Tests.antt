-- ===== src/Lobby/Tests.antt =====
-- The theorems on the matchmaker at concrete inputs.
use the_return_of_the_odysse.Base.{◌+◌, ◌≡◌, refl, some, List, [], ◌∷◌, All}
use the_return_of_the_odysse.Lobby.{Matchmaker, new_matchmaker, enqueue, cancel}
use the_return_of_the_odysse.Lobby.Invariant.{Inv, new_matchmaker-Inv}
use the_return_of_the_odysse.Lobby.Refinement.{
  view, queue_enqueue, queue_cancel, enqueue-queue, cancel-queue,
}
use the_return_of_the_odysse.Lobby.History.{
  Call, enters, leaves, joined, left, matched, run, joins, departs, count, IsFull, run-new_books,
}

abbrev pairs : Matchmaker
pairs = record { players_per_match = 2; waiting = []; queued = []; next_address = 0 }

pairs_made : new_matchmaker 2 ≡ some pairs
unfolding new_matchmaker
pairs_made = refl

pairs-Inv : Inv pairs
pairs-Inv = (new_matchmaker-Inv 2 pairs pairs_made).0

abbrev day : List Call
day = enters "7" ∷ enters "8" ∷ enters "9" ∷ enters "9" ∷ leaves "9" ∷ enters "7" ∷ []

day_events :
    (run day pairs).1
    ≡ joined "7" ∷ joined "8" ∷ matched ("7" ∷ "8" ∷ []) ∷ joined "9" ∷ left "9" ∷ joined "7" ∷ []
unfolding run enqueue cancel
day_events = refl

enqueue-queue_example :
    let spec = queue_enqueue 2 "7" [] in
    let r = enqueue "7" pairs in
    (view r.0 ≡ spec.0) × (r.1 ≡ spec.1) × (r.0.players_per_match ≡ 2) × Inv r.0
enqueue-queue_example = enqueue-queue "7" pairs pairs-Inv

cancel-queue_example :
    let spec = queue_cancel "7" [] in
    let r = cancel "7" pairs in
    (view r.0 ≡ spec.0) × (r.1 ≡ spec.1) × (r.0.players_per_match ≡ 2) × Inv r.0
cancel-queue_example = cancel-queue "7" pairs pairs-Inv

run-new_books_example :
    let (last, seen) = run day pairs in
    (joins "7" seen ≡ departs "7" seen + count "7" (view last)) × All (IsFull 2) seen
run-new_books_example = run-new_books 2 pairs day "7" pairs_made
