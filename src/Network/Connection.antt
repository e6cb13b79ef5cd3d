-- ===== src/Network/Connection.antt =====
-- server/internal/network/server.go: the outgoing side of a connection. Goroutines call `Send`,
-- `SendSnapshot`, `Close` and `CloseAfterFlush` while the writer goroutine drains the queues, so
-- the model is a step function over the actions that are atomic there. `Send` takes two of them
-- (the test of `closed`, then the attempt to queue, both under `sendMu`), since `Close` does not
-- take that lock and may come between. `SendSnapshot` takes no lock: its test of `closed` and each
-- `select` of its loop are one action each. So are the three calls in the body of `Close`. A
-- schedule is a list of actions. An action that cannot be taken, such as one that waits for
-- `sendMu`, changes nothing. The choice between the two queues and the success of a write belong to
-- the schedule.
pub mod Safety
pub mod Order
pub mod Flushing
mod Tests
use the_return_of_the_odysse.Base.{
  ℕ, zero, suc, ◌+◌, ◌%◌, ◌^◌, Bool, true, false, Option, none, some, List, [], ◌∷◌, ◌++◌, ltb,
  if◌then◌else◌, length, get_elem?,
}
use the_return_of_the_odysse.Base.Words.{u64}

abbrev pub Bytes : Type 0
Bytes = List ℕ

-- `make(chan []byte, 256)` in `newConnection`.
abbrev pub out_capacity : ℕ
out_capacity = 256

-- Who holds `sendMu` between two actions: nobody, or a `Send` that has seen `closed` open.
pub data SendPhase : Type 0 where
  unlocked : SendPhase
  checked : Bytes → SendPhase

-- A `SendSnapshot` in its loop: before the `select` that fills the slot, or before the one that
-- evicts, since the slot was full.
pub data Publisher : Type 0 where
  filling evicting : Bytes → Publisher

-- How far the body of `closeOnce` is: not begun, before `conn.Close`, before `onClose`, at its end.
pub data Teardown : Type 0 where
  intact dead unplugged over : Teardown

-- `closed` and `queue_closed` say that `deadOnce` and `queueOnce` have run; `writer_done` that
-- `writeLoop` has returned.
pub record Connection : Type 0 where
  pub out : List Bytes
  pub snapshot : Option Bytes
  pub closed : Bool
  pub queue_closed : Bool
  pub writer_done : Bool
  pub phase : SendPhase
  pub publishers : List Publisher
  pub teardown : Teardown
  pub reliable_rejected : ℕ
  pub snapshot_replaced : ℕ

-- What the callers and the peer see of an action; `panicked` is a send on a closed channel.
pub data Output : Type 0 where
  accepted rejected sent sent_snapshot : Bytes → Output
  snapshot_dropped snapshot_refused socket_closed removed panicked : Output

pub new_connection : Connection
new_connection = record {
  out = [];
  snapshot = none;
  closed = false;
  queue_closed = false;
  writer_done = false;
  phase = unlocked;
  publishers = [];
  teardown = intact;
  reliable_rejected = 0;
  snapshot_replaced = 0;
}

abbrev pub Outcome : Type 0
Outcome = Connection × List Output

-- `recordReliableRejection` and `return false`
reject : Bytes → Connection → Outcome
reject frame c = (
  record c { phase = unlocked; reliable_rejected = u64 (c.reliable_rejected + 1) },
  rejected frame ∷ [],
)

-- `Send`, up to the first `select`.
pub send_check : Bytes → Connection → Outcome
unfolding reject
send_check frame c = elim c.phase [
  | unlocked ↦ if c.closed then reject frame c else (record c { phase = checked frame }, [])
  | checked _ ↦ (c, [])
]

-- `Send`, the second `select` and the return.
pub send_queue : Connection → Outcome
unfolding reject
send_queue c = elim c.phase [
  | unlocked ↦ (c, [])
  | checked frame ↦
      if c.queue_closed
      then (record c { phase = unlocked }, panicked ∷ [])
      else if ltb (length c.out) out_capacity
      then (record c { phase = unlocked; out = c.out ++ frame ∷ [] }, accepted frame ∷ [])
      else reject frame c
]

-- `SendSnapshot` up to its loop.
pub send_snapshot : Bytes → Connection → Outcome
send_snapshot frame c =
    if c.closed
    then (c, snapshot_refused ∷ [])
    else (record c { publishers = c.publishers ++ filling frame ∷ [] }, [])

-- The list without the entry at the index, and with another one there.
abbrev pub without : ℕ → List Publisher → List Publisher
without n [] = []
without zero (p ∷ ps) = ps
without (suc n) (p ∷ ps) = p ∷ without n ps

abbrev pub with_ : ℕ → Publisher → List Publisher → List Publisher
with_ n q [] = []
with_ zero q (p ∷ ps) = q ∷ ps
with_ (suc n) q (p ∷ ps) = p ∷ with_ n q ps

-- One `select` in the loop of the `SendSnapshot` at the index.
pub publish : ℕ → Connection → Outcome
publish n c = elim (get_elem? c.publishers n) [
  | none ↦ (c, [])
  | some (filling frame) ↦ elim c.snapshot [
    | none ↦ (record c { snapshot = some frame; publishers = without n c.publishers }, [])
    | some old ↦ (record c { publishers = with_ n (evicting frame) c.publishers }, [])
  ]
  | some (evicting frame) ↦ elim c.snapshot [
    | none ↦ (record c { publishers = with_ n (filling frame) c.publishers }, [])
    | some old ↦ (
      record c {
        snapshot = none;
        publishers = with_ n (filling frame) c.publishers;
        snapshot_replaced = u64 (c.snapshot_replaced + 1);
      },
      snapshot_dropped ∷ [],
    )
  ]
]

-- A call of `Close` that begins the body of `closeOnce`; any other only waits for its end.
pub close : Connection → Outcome
close c = elim c.teardown [
  | intact ↦ (record c { closed = true; teardown = dead }, [])
  | _ ↦ (c, [])
]

-- The next call in the body of `closeOnce`: `conn.Close`, then `onClose`.
pub tear : Connection → Outcome
tear c = elim c.teardown [
  | dead ↦ (record c { teardown = unplugged }, socket_closed ∷ [])
  | unplugged ↦ (record c { teardown = over }, removed ∷ [])
  | _ ↦ (c, [])
]

-- `closeQueue`, also called `CloseAfterFlush`: waits for `sendMu`.
pub close_queue : Connection → Outcome
close_queue c = elim c.phase [
  | unlocked ↦ (record c { closed = true; queue_closed = true }, [])
  | checked _ ↦ (c, [])
]

-- One write of `writeLoop` from the snapshot slot. A failed write ends the loop.
pub write_snapshot : Bool → Connection → Outcome
write_snapshot works c = elim c.snapshot [
  | none ↦ (c, [])
  | some frame ↦
      if c.writer_done
      then (c, [])
      else if works
      then (record c { snapshot = none }, sent_snapshot frame ∷ [])
      else (record c { snapshot = none; writer_done = true }, [])
]

-- The end of `writeLoop` when the queue is closed and drained: what is left in the slot first.
finish_writer : Connection → Connection
finish_writer c = elim c.snapshot [
  | none ↦ if c.queue_closed then record c { writer_done = true } else c
  | some _ ↦ c
]

-- One receive of `writeLoop` from the reliable queue.
pub write_reliable : Bool → Connection → Outcome
unfolding finish_writer
write_reliable works c = if c.writer_done then (c, []) else elim c.out [
  | [] ↦ (finish_writer c, [])
  | frame ∷ rest ↦
      if works
      then (record c { out = rest }, sent frame ∷ [])
      else (record c { out = rest; writer_done = true }, [])
]

pub data Action : Type 0 where
  sends snapshots : Bytes → Action
  publishes : ℕ → Action
  queues closes tears flushes : Action
  writes_snapshot writes_reliable : Bool → Action

unfoldable pub step : Connection → Action → Outcome
unfolding send_check send_queue send_snapshot publish close tear close_queue write_snapshot
    write_reliable
step c (sends frame) = send_check frame c
step c queues = send_queue c
step c (snapshots frame) = send_snapshot frame c
step c (publishes n) = publish n c
step c closes = close c
step c tears = tear c
step c flushes = close_queue c
step c (writes_snapshot works) = write_snapshot works c
step c (writes_reliable works) = write_reliable works c

unfoldable pub run : Connection → List Action → Outcome
run c [] = (c, [])
run c (a ∷ as_) = let (c', seen) = step c a in let (last, more) = run c' as_ in (last, seen ++ more)
