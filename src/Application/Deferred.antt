-- ===== src/Application/Deferred.antt =====
-- server/cmd/gameserver/deferred_events.go: a sink that holds a player's events back until the match
-- is announced. Each method holds the lock for its whole body, so a method is one step. `D` is the
-- state behind `downstream`, and `forward` its `Send`.
pub mod Order
mod Tests
use the_return_of_the_odysse.Base.{
  ℕ, ◌+◌, Bool, true, false, List, [], ◌∷◌, ◌++◌, ◌==◌, if◌then◌else◌, length,
}

abbrev pub Frame : Type 0
Frame = List ℕ

abbrev pub max_deferred_events : ℕ
max_deferred_events = 128

-- `closing` is set when `downstream.connection.Close` has been started.
pub record Sink (D : Type 0) : Type 0 where
  pub downstream : D
  pub pending : List Frame
  pub released : Bool
  pub closing : Bool

-- What `Send` answered for a frame, and what `downstream.Send` answered.
pub data Seen : Type 0 where
  accepted refused forwarded bounced : Frame → Seen

abbrev pub Outcome : Type 0 → Type 0
Outcome D = Sink D × List Seen

-- `newDeferredEventSink`
pub new_sink : {D : Type 0} → D → Sink D
new_sink d = record { downstream = d; pending = []; released = false; closing = false }

-- What `Send` returns once `downstream.Send` has answered.
abbrev pub passed_on : {D : Type 0} → Frame → Bool × D → Sink D → Outcome D
passed_on frame (true, d) s = (record s { downstream = d }, forwarded frame ∷ accepted frame ∷ [])
passed_on frame (false, d) s = (record s { downstream = d }, bounced frame ∷ refused frame ∷ [])

-- `Send`
pub send : {D : Type 0} → (Frame → D → Bool × D) → Frame → Sink D → Outcome D
send forward frame s =
    if s.released
    then passed_on frame (forward frame s.downstream) s
    else if length s.pending == max_deferred_events
    then (record s { closing = true }, refused frame ∷ [])
    else (record s { pending = s.pending ++ frame ∷ [] }, accepted frame ∷ [])

-- The loop of `Release`: it stops at the first frame that is refused.
pub flush : {D : Type 0} → (Frame → D → Bool × D) → List Frame → D → D × List Seen
flush forward [] d = (d, [])
flush forward (frame ∷ rest) d =
    let (taken, d') = forward frame d in
    let (last, seen) = flush forward rest d' in
    if taken then (last, forwarded frame ∷ seen) else (d', bounced frame ∷ [])

-- `Release`
pub release : {D : Type 0} → (Frame → D → Bool × D) → Sink D → Outcome D
unfolding flush
release forward s =
    let (d, seen) = flush forward s.pending s.downstream in
    (record s { downstream = d; pending = []; released = true }, seen)

pub data Call : Type 0 where
  sends : Frame → Call
  releases : Call

unfoldable pub step : {D : Type 0} → (Frame → D → Bool × D) → Sink D → Call → Outcome D
unfolding send release
step forward s (sends frame) = send forward frame s
step forward s releases = release forward s

unfoldable pub run : {D : Type 0} → (Frame → D → Bool × D) → Sink D → List Call → Outcome D
run forward s [] = (s, [])
run forward s (c ∷ cs) =
    let (s', seen) = step forward s c in
    let (last, more) = run forward s' cs in (last, seen ++ more)
