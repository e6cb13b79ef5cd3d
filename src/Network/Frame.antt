-- ===== src/Network/Frame.antt =====
-- server/internal/network/frame.go. A byte is a number below 256, a `[]byte` a list of them; the
-- stream that `bufio.Reader` reads is the list of the bytes still to come. `io.ReadFull` and
-- `io.Writer` are modelled by what their documentation says. `ReadFrame` also returns the half
-- read header beside an error, which no caller uses: the model leaves it out.
pub mod RoundTrip
pub mod Checks
pub mod Stream
mod Tests
use the_return_of_the_odysse.Base.{
  ℕ, ◌+◌, ◌*◌, ◌/◌, ◌%◌, ◌^◌, ◌<◌, ◌≡◌, refl, ◌⊎◌, inl, inr, arith, Bool, true, false, Option, none,
  some, List, [], ◌∷◌, ◌++◌, leb, ltb, ◌==◌, not, if◌then◌else◌, length, take, drop, get_or,
}
use the_return_of_the_odysse.Base.Words.{u32}
use the_return_of_the_odysse.Base.Results.{Result, ok, err, ◌>>=◌, ◌>>◌, reject_if}

abbrev pub header_len : ℕ
header_len = 16

abbrev pub magic_v1 : ℕ
magic_v1 = 0x4e52

abbrev pub version_v1 : ℕ
version_v1 = 1

abbrev pub max_body_len : ℕ
max_body_len = 64 * 1024

pub data Error : Type 0 where
  invalid_magic invalid_version frame_too_large message_type_zero : Error
  eof unexpected_eof short_write write_failed : Error

abbrev pub Checked {ℓ} : Type ℓ → Type ℓ
Checked = Result Error

pub record Header : Type 0 where
  pub magic : ℕ
  pub version : ℕ
  pub flags : ℕ
  pub message_type : ℕ
  pub reserved : ℕ
  pub body_length : ℕ
  pub sequence : ℕ

-- `Header.Validate`
pub validate : Header → Checked (Unit {0})
validate h = do
  reject_if (not (h.magic == magic_v1)) invalid_magic
  reject_if (not (h.version == version_v1)) invalid_version
  reject_if (h.message_type == 0) message_type_zero
  ok tt

-- `binary.BigEndian.Uint16` and `Uint32`
abbrev pub uint16_be : ℕ → ℕ → ℕ
uint16_be a b = a * 2 ^ 8 + b

abbrev pub uint32_be : ℕ → ℕ → ℕ → ℕ → ℕ
uint32_be a b c d = a * 2 ^ 24 + b * 2 ^ 16 + c * 2 ^ 8 + d

-- `binary.BigEndian.PutUint16` and `PutUint32`
abbrev pub put_uint16_be : ℕ → List ℕ
put_uint16_be v = (v / 2 ^ 8 % 2 ^ 8) ∷ (v % 2 ^ 8) ∷ []

abbrev pub put_uint32_be : ℕ → List ℕ
put_uint32_be v =
    (v / 2 ^ 24 % 2 ^ 8) ∷ (v / 2 ^ 16 % 2 ^ 8) ∷ (v / 2 ^ 8 % 2 ^ 8) ∷ (v % 2 ^ 8) ∷ []

-- `io.ReadFull` into a buffer of `n` bytes.
pub read_full : ℕ → List ℕ → Checked (List ℕ × List ℕ)
read_full n s =
    if leb n (length s)
    then ok (take n s, drop n s)
    else if length s == 0
    then err eof
    else err unexpected_eof

-- The seven reads from the 16 bytes `hb` in `ReadFrame`.
pub parse_header : List ℕ → Header
parse_header hb = record {
  magic = uint16_be (at 0) (at 1);
  version = at 2;
  flags = at 3;
  message_type = uint16_be (at 4) (at 5);
  reserved = uint16_be (at 6) (at 7);
  body_length = uint32_be (at 8) (at 9) (at 10) (at 11);
  sequence = uint32_be (at 12) (at 13) (at 14) (at 15);
}
  where
    at : ℕ → ℕ
    at i = get_or hb i 0

-- The checks of `ReadFrame` before it allocates the body.
pub check_header : Header → Checked (Unit {0})
check_header h = do
  reject_if (not (h.magic == magic_v1)) invalid_magic
  reject_if (not (h.version == version_v1)) invalid_version
  reject_if (ltb max_body_len h.body_length) frame_too_large
  reject_if (h.message_type == 0) message_type_zero
  ok tt

-- What `ReadFrame` does once the header is read: the checks, then the body.
pub read_rest : Header → List ℕ → Checked (Header × List ℕ × List ℕ)
read_rest h s = do check_header h; (body, rest) ← read_full h.body_length s; ok (h, body, rest)

pub read_frame : List ℕ → Checked (Header × List ℕ × List ℕ)
unfolding read_rest
read_frame s = do (hb, s') ← read_full header_len s; read_rest (parse_header hb) s'

-- An `io.Writer` over a state: it returns the count of bytes taken and an error, if any.
abbrev pub Writer : Type 0 → Type 0
Writer W = List ℕ → W → ℕ × Option Error × W

-- The buffer that `WriteFrame` fills.
pub frame_bytes : Header → List ℕ → List ℕ
frame_bytes h body =
    put_uint16_be h.magic
    ++ (h.version ∷ h.flags ∷ [])
    ++ put_uint16_be h.message_type
    ++ put_uint16_be h.reserved
    ++ put_uint32_be h.body_length
    ++ put_uint32_be h.sequence
    ++ body

abbrev pub finish_write : {W : Type 0} → ℕ → ℕ × Option Error × W → Checked (Unit {0}) × W
finish_write size (n, some e, w) = (err e, w)
finish_write size (n, none, w) = (if n == size then ok tt else err short_write, w)

pub write_frame : {W : Type 0} → Writer W → Header → List ℕ → W → Checked (Unit {0}) × W
write_frame write h body w =
    if ltb max_body_len (length body)
    then (err frame_too_large, w)
    else let buf = frame_bytes (record h { body_length = u32 (length body) }) body in
      finish_write (length buf) (write buf w)

-- `bytesBuffer.Write`
pub buffer_write : Writer (List ℕ)
buffer_write p b = (length p, none, b ++ p)

pub encode_frame : Header → List ℕ → Checked (List ℕ)
unfolding write_frame buffer_write
encode_frame h body = let (r, b) = write_frame buffer_write h body [] in r >> ok b
