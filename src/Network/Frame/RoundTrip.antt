-- ===== src/Network/Frame/RoundTrip.antt =====
-- frame.go: `EncodeFrame` and `ReadFrame` are inverse to one another.
use the_return_of_the_odysse.Base.{
  ℕ, ◌^◌, ◌≤◌, ◌<◌, ◌≡◌, refl, subst, List, [], ◌++◌, arith, length, le→leb, take-length_append,
  drop-length_append, length-append,
}
use the_return_of_the_odysse.Base.Words.{u32}
use the_return_of_the_odysse.Base.Results.{ok}
use the_return_of_the_odysse.Network.Frame.{
  Header, header_len, magic_v1, version_v1, max_body_len, read_full, parse_header, check_header,
  read_frame, frame_bytes, encode_frame,
}

-- A header whose fields fit their words and pass the checks of the protocol.
pub record IsSendable (h : Header) : Type 0 where
  pub magic_ok : h.magic ≡ magic_v1
  pub version_ok : h.version ≡ version_v1
  pub flags_byte : h.flags < 2 ^ 8
  pub type_word : h.message_type < 2 ^ 16
  pub type_given : 0 < h.message_type
  pub reserved_word : h.reserved < 2 ^ 16
  pub sequence_word : h.sequence < 2 ^ 32

abbrev pub with_length : Header → List ℕ → Header
with_length h body = record h { body_length = length body }

-- Reading as many bytes as the front of the stream has gives that front.
pub read_full-append : (xs ys : List ℕ) → read_full (length xs) (xs ++ ys) ≡ ok (xs, ys)
unfolding read_full
read_full-append xs ys = rw (
  le→leb (length xs) (length (xs ++ ys)) (omega (arith, length-append xs ys)),
  take-length_append xs ys,
  drop-length_append xs ys,
)

pub encode_frame-eq :
    (h : Header) (body : List ℕ)
    → length body ≤ max_body_len
    → encode_frame h body ≡ ok (frame_bytes (with_length h body) body)
unfolding encode_frame
encode_frame-eq h body small =
    let fits : u32 (length body) ≡ length body = omega arith in rw fits (ground arith)

pub parse_header-frame_bytes :
    (h : Header) → IsSendable h → h.body_length < 2 ^ 32 → parse_header (frame_bytes h []) ≡ h
unfolding parse_header frame_bytes
parse_header-frame_bytes h s small = ground arith

pub frame_bytes-append :
    (h : Header) (body rest : List ℕ)
    → frame_bytes h body ++ rest ≡ frame_bytes h [] ++ (body ++ rest)
unfolding frame_bytes
frame_bytes-append h body rest = refl

length-frame_bytes_nil : (h : Header) → length (frame_bytes h []) ≡ header_len
unfolding frame_bytes
length-frame_bytes_nil h = refl

pub read_full-header :
    (h : Header) (rest : List ℕ)
    → read_full header_len (frame_bytes h [] ++ rest) ≡ ok (frame_bytes h [], rest)
read_full-header h rest =
    subst (λ n. read_full n (frame_bytes h [] ++ rest) ≡ ok (frame_bytes h [], rest))
      (length-frame_bytes_nil h) (read_full-append (frame_bytes h []) rest)

check_header-sendable :
    (h : Header) (n : ℕ)
    → IsSendable h
    → n ≤ max_body_len
    → check_header (record h { body_length = n }) ≡ ok tt
unfolding check_header
check_header-sendable h n s small = ground arith

-- A sendable header with any body of at most 64 KiB is encoded, and reading the encoded bytes,
-- whatever follows them in the stream, gives the header with the body's length, the body, and
-- exactly what follows.
pub read_frame-encode_frame :
    (h : Header) (body rest : List ℕ)
    → IsSendable h
    → length body ≤ max_body_len
    → (bytes : List ℕ) × (encode_frame h body ≡ ok bytes)
      × (read_frame (bytes ++ rest) ≡ ok (with_length h body, body, rest))
unfolding read_frame
read_frame-encode_frame h body rest s small = (
  frame_bytes g body,
  encode_frame-eq h body small,
  rw (
    frame_bytes-append g body rest,
    read_full-header g (body ++ rest),
    parse_header-frame_bytes g sendable (omega arith),
    check_header-sendable h (length body) s small,
    read_full-append body rest,
  ),
)
  where
    g : Header
    g = with_length h body

    sendable : IsSendable g
    sendable = ground arith
