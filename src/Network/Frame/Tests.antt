-- ===== src/Network/Frame/Tests.antt =====
-- The golden sample of docs/protocol/frame.md, and the theorems on frames at concrete inputs.
use the_return_of_the_odysse.Base.{
  ℕ, ◌+◌, ◌≤◌, ◌<◌, ◌≡◌, ◌≢◌, refl, ◌⊎◌, true, false, List, [], ◌∷◌, ◌++◌, arith, length,
}
use the_return_of_the_odysse.Base.Results.{ok, err}
use the_return_of_the_odysse.Network.Frame.{
  Header, invalid_magic, validate, read_full, parse_header, check_header, read_frame, frame_bytes,
  encode_frame, header_len, max_body_len,
}
use the_return_of_the_odysse.Network.Frame.RoundTrip.{
  IsSendable, with_length, read_frame-encode_frame,
}
use the_return_of_the_odysse.Network.Frame.Checks.{
  read_frame-accepts, read_frame-rejects, IsShort, Fault,
}
use the_return_of_the_odysse.Network.Frame.Stream.{
  Handler, Frames, wire, read_loop, deliver, out_of_fuel, read_loop-wire, read_loop-ends,
}

-- Ping (client_time_ms = 1, nonce = 2) with sequence 1.
abbrev ping : Header
ping = record {
  magic = 0x4e52;
  version = 1;
  flags = 0;
  message_type = 1;
  reserved = 0;
  body_length = 0;
  sequence = 1;
}

abbrev ping_body : List ℕ
ping_body = 0x08 ∷ 0x01 ∷ 0x10 ∷ 0x02 ∷ []

abbrev ping_wire : List ℕ
ping_wire = 0x4e ∷ 0x52 ∷ 1 ∷ 0 ∷ 0 ∷ 1 ∷ 0 ∷ 0 ∷ 0 ∷ 0 ∷ 0 ∷ 4 ∷ 0 ∷ 0 ∷ 0 ∷ 1 ∷ ping_body

golden_encode : encode_frame ping ping_body ≡ ok ping_wire
unfolding encode_frame frame_bytes
golden_encode = refl

golden_read : read_frame (ping_wire ++ 7 ∷ []) ≡ ok (with_length ping ping_body, ping_body, 7 ∷ [])
unfolding read_frame read_full parse_header check_header
golden_read = refl

ping-IsSendable : IsSendable ping
ping-IsSendable = ground arith

read_frame-encode_frame_example :
    (bytes : List ℕ) × (encode_frame ping ping_body ≡ ok bytes)
    × (read_frame (bytes ++ 7 ∷ []) ≡ ok (with_length ping ping_body, ping_body, 7 ∷ []))
read_frame-encode_frame_example =
    read_frame-encode_frame ping ping_body (7 ∷ []) ping-IsSendable (omega arith)

read_frame-accepts_example :
    (hb : List ℕ) × (ping_wire ++ 7 ∷ [] ≡ hb ++ (ping_body ++ 7 ∷ []))
    × (length hb ≡ header_len)
    × (with_length ping ping_body ≡ parse_header hb)
    × (validate (with_length ping ping_body) ≡ ok tt)
    × (length ping_body ≡ 4)
    × (length ping_body ≤ max_body_len)
read_frame-accepts_example =
    read_frame-accepts (ping_wire ++ 7 ∷ []) (with_length ping ping_body) ping_body (7 ∷ [])
      golden_read

abbrev http : List ℕ
http = b'G' ∷ b'E' ∷ b'T' ∷ b' ' ∷ b'/' ∷ 0 ∷ 0 ∷ 0 ∷ 0 ∷ 0 ∷ 0 ∷ 0 ∷ 0 ∷ 0 ∷ 0 ∷ 0 ∷ 0 ∷ []

http_refused : read_frame http ≡ err invalid_magic
unfolding read_frame read_full parse_header check_header
http_refused = refl

read_frame-rejects_example :
    ((length http < header_len) × IsShort invalid_magic)
    ⊎ ((hb : List ℕ) × (s' : List ℕ) × (http ≡ hb ++ s')
        × (length hb ≡ header_len)
        × Fault hb s' invalid_magic)
read_frame-rejects_example = read_frame-rejects http invalid_magic http_refused

-- A handler that counts the bytes of the bodies, and refuses a third frame.
abbrev counting : Handler (ℕ × ℕ)
counting h body (left, seen) = elim left [
  | ℕ.zero ↦ (false, (0, seen))
  | ℕ.suc n ↦ (true, (n, seen + length body))
]

abbrev two_pings : Frames
two_pings = (ping, ping_body) ∷ (ping, []) ∷ []

read_loop-wire_example :
    read_loop counting 37 (wire two_pings) (2, 0) ≡ deliver counting two_pings (2, 0)
unfolding wire encode_frame frame_bytes
read_loop-wire_example =
    read_loop-wire counting two_pings 37 (2, 0)
      ((ping-IsSendable, omega arith), ((ping-IsSendable, omega arith), tt)) (omega arith)

read_loop-ends_example : (read_loop counting 18 http (2, 0)).0 ≢ out_of_fuel
read_loop-ends_example = read_loop-ends counting 18 http (2, 0) (omega arith)
