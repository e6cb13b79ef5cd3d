-- ===== src/Network/Frame/Stream.antt =====
-- server/internal/network/server.go, `readLoop`: frames from a stream of bytes to the handler.
-- The handler is a parameter over a state of its own; `false` stands for its error. A round of the
-- loop takes one unit of fuel: a frame takes at least 16 bytes, so the length of the stream is
-- more than enough.
use the_return_of_the_odysse.Base.{
  ℕ, zero, suc, ◌+◌, ◌≤◌, ◌<◌, ◌≡◌, ◌≢◌, refl, ap, inl, inr, Bool, List, [], ◌∷◌, ◌++◌, arith,
  if◌then◌else◌, length, length-append, All,
}
use the_return_of_the_odysse.Base.Results.{ok, err, Result-cases}
use the_return_of_the_odysse.Network.Frame.{
  Checked, Header, Error, eof, max_body_len, read_frame, encode_frame, frame_bytes, read_full,
}
use the_return_of_the_odysse.Network.Frame.RoundTrip.{
  IsSendable, with_length, encode_frame-eq, read_frame-encode_frame,
}
use the_return_of_the_odysse.Network.Frame.Checks.{read_frame-accepts}

pub data Ended : Type 0 where
  read_error : Error → Ended
  refused out_of_fuel : Ended

abbrev pub Handler : Type 0 → Type 0
Handler S = Header → List ℕ → S → Bool × S

abbrev pub Frames : Type 0
Frames = List (Header × List ℕ)

module _ {S : Type 0} (handler : Handler S) where
  pub read_loop : ℕ → List ℕ → S → Ended × S
  read_loop zero s st = (out_of_fuel, st)
  read_loop (suc fuel) s st = elim (read_frame s) [
    | err e ↦ (read_error e, st)
    | ok (h, body, rest) ↦
        let (accepted, st') = handler h body st in
        let more = read_loop fuel rest st' in if accepted then more else (refused, st')
  ]

  -- The frames handed over one by one, with no bytes between.
  pub deliver : Frames → S → Ended × S
  deliver [] st = (read_error eof, st)
  deliver ((h, body) ∷ fs) st =
      let (accepted, st') = handler (with_length h body) body st in
      let more = deliver fs st' in if accepted then more else (refused, st')

abbrev pub bytes_or_none : Checked (List ℕ) → List ℕ
bytes_or_none (ok bytes) = bytes
bytes_or_none (err e) = []

-- What a peer puts on the wire, one encoded frame behind the other.
unfoldable pub wire : Frames → List ℕ
wire [] = []
wire ((h, body) ∷ fs) = bytes_or_none (encode_frame h body) ++ wire fs

abbrev pub CanSend : Header × List ℕ → Type 0
CanSend (h, body) = IsSendable h × (length body ≤ max_body_len)

read_frame-nil : read_frame [] ≡ err eof
unfolding read_frame read_full
read_frame-nil = refl

length-wire :
    (h : Header) (body : List ℕ) (fs : Frames)
    → CanSend (h, body)
    → 16 + length (wire fs) ≤ length (wire ((h, body) ∷ fs))
unfolding wire frame_bytes
length-wire h body fs can =
    rw (encode_frame-eq h body can.1) (omega (arith, length-append body (wire fs)))

wire_nil : wire [] ≡ []
unfolding wire
wire_nil = refl

read_loop_front :
    (h : Header) (body : List ℕ) (fs : Frames)
    → CanSend (h, body)
    → read_frame (wire ((h, body) ∷ fs)) ≡ ok (with_length h body, body, wire fs)
unfolding wire
read_loop_front h body fs can =
    let (bytes, encoded, read) = read_frame-encode_frame h body (wire fs) can.0 can.1 in
    rw encoded read

module _ {S : Type 0} (handler : Handler S) where
  -- However the frames that a peer sends are cut into reads, the handler sees the same frames in
  -- the same order as if each were handed over by itself: with fuel above the stream's length, the
  -- loop ends as `deliver` does, at the end of the stream or at the first frame that is refused.
  pub read_loop-wire :
      (fs : Frames) (fuel : ℕ) (st : S)
      → All CanSend fs
      → length (wire fs) < fuel
      → read_loop handler fuel (wire fs) st ≡ deliver handler fs st
  unfolding read_loop deliver
  read_loop-wire [] zero st can enough = absurd (omega arith)
  read_loop-wire [] (suc fuel) st can enough = rw (wire_nil, read_frame-nil, read_loop)
  read_loop-wire (f ∷ fs) zero st can enough = absurd (omega arith)
  read_loop-wire ((h, body) ∷ fs) (suc fuel) st can enough =
      let st' = (handler (with_length h body) body st).1 in
      rw (read_loop_front h body fs can.0, read_loop)
        (rw (read_loop-wire fs fuel st' can.1 (omega (arith, length-wire h body fs can.0))))

  -- The loop always ends by itself: with fuel above the stream's length it never runs out, whatever
  -- the bytes are and whatever the handler does.
  pub read_loop-ends :
      (fuel : ℕ) (s : List ℕ) (st : S)
      → length s < fuel
      → (read_loop handler fuel s st).0 ≢ out_of_fuel
  unfolding read_loop
  read_loop-ends zero s st enough = absurd (omega arith)
  read_loop-ends (suc fuel) s st enough = elim (Result-cases (read_frame s)) [
    | inl (e, failed) ↦ rw (failed, read_loop) (λ same. cc)
    | inr ((h, body, rest), got) ↦
        let (hb, split, sixteen, _, _, _, _) = read_frame-accepts s h body rest got in
        let shorter : length rest < fuel =
          omega
            (arith, ap length split, length-append hb (body ++ rest), length-append body rest) in
        let ih = read_loop-ends fuel rest (handler h body st).1 shorter in
        rw (got, read_loop) (ground arith)
  ]
