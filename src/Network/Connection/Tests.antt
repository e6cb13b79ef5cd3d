-- ===== src/Network/Connection/Tests.antt =====
-- The theorems on connections at concrete schedules.
use the_return_of_the_odysse.Base.{
  ◌+◌, ◌≡◌, ◌≢◌, refl, inl, inr, true, false, some, List, [], ◌∷◌, ◌++◌, All,
}
use the_return_of_the_odysse.Network.Connection.{
  Bytes, Connection, accepted, rejected, sent, socket_closed, removed, panicked, snapshot_dropped,
  snapshot_refused, intact, new_connection, Action, step, run, sends, snapshots, publishes, queues,
  closes, tears, flushes, writes_snapshot, writes_reliable, unlocked, send_check, reject,
  write_snapshot, write_reliable, finish_writer,
}
use the_return_of_the_odysse.Network.Connection.Safety.{
  Inv, new_connection-Inv, run-safe, run-tears, socket_closes, removals, plugged, listed,
}
use the_return_of_the_odysse.Network.Connection.Order.{taken, written, run-order}
use the_return_of_the_odysse.Network.Connection.Flushing.{
  AllFair, rounds, left_over, IsOverOrGoing, run-flushes,
}

abbrev hello : Bytes
hello = 1 ∷ 2 ∷ []

abbrev bye : Bytes
bye = 9 ∷ []

-- `Close` falls between the two halves of a `Send`; the last `Send` comes after `CloseAfterFlush`.
abbrev race : List Action
race =
    sends hello
    ∷ closes
    ∷ queues
    ∷ flushes
    ∷ sends bye
    ∷ writes_reliable true
    ∷ writes_reliable true
    ∷ closes
    ∷ tears
    ∷ tears
    ∷ []

-- A `SendSnapshot` that has passed its test of `closed` still fills the slot after `Close`.
abbrev late : List Action
late =
    snapshots hello
    ∷ snapshots bye
    ∷ closes
    ∷ publishes 0
    ∷ publishes 0
    ∷ publishes 0
    ∷ snapshots hello
    ∷ []

late_outputs : (run new_connection late).1 ≡ snapshot_dropped ∷ snapshot_refused ∷ []
unfolding run step new_connection
late_outputs = refl

race_outputs :
    (run new_connection race).1
    ≡ accepted hello ∷ rejected bye ∷ sent hello ∷ socket_closed ∷ removed ∷ []
unfolding run step new_connection
race_outputs = refl

run-safe_example :
    Inv (run new_connection race).0 × All (λ o. o ≢ panicked) (run new_connection race).1
run-safe_example = run-safe new_connection race new_connection-Inv

run-tears_example :
    (socket_closes (run new_connection race).1 + plugged (run new_connection race).0.teardown ≡ 1)
    × (removals (run new_connection race).1 + listed (run new_connection race).0.teardown ≡ 1)
unfolding new_connection
run-tears_example = run-tears new_connection race

run-order_example :
    taken (run new_connection race).1
    ≡ written (run new_connection race).1 ++ (run new_connection race).0.out
unfolding new_connection
run-order_example =
    run-order new_connection race (tt, (tt, (tt, (tt, (tt, (refl, (refl, (tt, (tt, (tt, tt))))))))))

abbrev queued : Connection
queued = record {
  out = hello ∷ bye ∷ [];
  snapshot = some hello;
  closed = false;
  queue_closed = false;
  writer_done = false;
  phase = unlocked;
  publishers = [];
  teardown = intact;
  reliable_rejected = 0;
  snapshot_replaced = 0;
}

-- A reliable frame first, then a refused `Send`, the snapshot, the other frame and the return.
abbrev service : List Action
service =
    writes_reliable true
    ∷ sends hello
    ∷ writes_snapshot true
    ∷ writes_reliable true
    ∷ writes_reliable true
    ∷ []

service-AllFair : AllFair (record queued { closed = true; queue_closed = true }) service
unfolding step send_check reject write_snapshot write_reliable finish_writer
service-AllFair = (
  (refl, refl, inr (λ e. cc)),
  (tt, ((refl, refl, λ e. cc), ((refl, refl, inl refl), ((refl, refl, inl refl), tt)))),
)

run-flushes_example :
    let (last, seen) = run queued (flushes ∷ service) in
    (queued.out ≡ written seen ++ last.out)
    × (4 ≡ rounds service + left_over last)
    × IsOverOrGoing last
    × (last.closed ≡ true)
run-flushes_example = run-flushes queued service refl refl service-AllFair
