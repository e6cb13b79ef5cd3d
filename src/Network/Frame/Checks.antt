-- ===== src/Network/Frame/Checks.antt =====
-- frame.go: what `ReadFrame` refuses, and in which order.
use the_return_of_the_odysse.Base.{
  ℕ, ◌≤◌, ◌<◌, ◌≡◌, ◌≢◌, subst, ◌⊎◌, inl, inr, List, ◌++◌, arith, length, length-take,
  take-append-drop,
}
use the_return_of_the_odysse.Base.Results.{ok, err, ok_parts, err_parts}
use the_return_of_the_odysse.Network.Frame.{
  Checked, Header, Error, invalid_magic, invalid_version, frame_too_large, message_type_zero, eof,
  unexpected_eof, header_len, magic_v1, version_v1, max_body_len, validate, read_full, parse_header,
  check_header, read_rest, read_frame,
}

-- What a successful `io.ReadFull` returns: the first `n` bytes and the rest.
pub read_full-ok :
    (n : ℕ) (s got rest : List ℕ)
    → read_full n s ≡ ok (got, rest)
    → (length got ≡ n) × (s ≡ got ++ rest)
unfolding read_full
read_full-ok n s got rest h = ground (arith, length-take n s, take-append-drop n s)

abbrev pub IsShort : Error → Type 0
IsShort e = (e ≡ eof) ⊎ (e ≡ unexpected_eof)

read_full-err :
    (n : ℕ) (s : List ℕ) (e : Error) → read_full n s ≡ err e → (length s < n) × IsShort e
unfolding read_full
read_full-err n s e h = ground arith

-- The verdict on a complete header, by the four checks in their order.
abbrev pub Verdict : Header → Checked (Unit {0}) → Type 0
Verdict h r =
    ((h.magic ≢ magic_v1) × (r ≡ err invalid_magic))
    ⊎ ((h.magic ≡ magic_v1) × (h.version ≢ version_v1) × (r ≡ err invalid_version))
    ⊎ ((h.magic ≡ magic_v1)
        × (h.version ≡ version_v1)
        × (max_body_len < h.body_length)
        × (r ≡ err frame_too_large))
    ⊎ ((h.magic ≡ magic_v1)
        × (h.version ≡ version_v1)
        × (h.body_length ≤ max_body_len)
        × (h.message_type ≡ 0)
        × (r ≡ err message_type_zero))
    ⊎ ((h.magic ≡ magic_v1)
        × (h.version ≡ version_v1)
        × (h.body_length ≤ max_body_len)
        × (0 < h.message_type)
        × (r ≡ ok tt))

check_header-Verdict : (h : Header) → Verdict h (check_header h)
unfolding check_header
check_header-Verdict h = grind arith

check_header-validate :
    (h : Header) → check_header h ≡ ok tt → (validate h ≡ ok tt) × (h.body_length ≤ max_body_len)
unfolding check_header validate
check_header-validate h e = ground arith

-- A frame is accepted only as a header of 16 bytes that `Validate` accepts too, with the protocol's
-- magic and version and a message type, followed by a body of exactly the announced length, which
-- is at most 64 KiB; nothing of the stream is lost or read twice.
pub read_frame-accepts :
    (s : List ℕ) (h : Header) (body rest : List ℕ)
    → read_frame s ≡ ok (h, body, rest)
    → (hb : List ℕ) × (s ≡ hb ++ (body ++ rest))
      × (length hb ≡ header_len)
      × (h ≡ parse_header hb)
      × (validate h ≡ ok tt)
      × (length body ≡ h.body_length)
      × (length body ≤ max_body_len)
unfolding read_frame
read_frame-accepts s h body rest e =
    let ((hb, s'), got, e1) = ok_parts (read_full header_len s) _ e in
    let (_, passed, e2) = ok_parts (check_header (parse_header hb)) _ e1 in
    let ((body', rest'), filled, e3) = ok_parts (read_full (parse_header hb).body_length s') _ e2 in
    let first = read_full-ok header_len s hb s' got in
    let second = read_full-ok (parse_header hb).body_length s' body' rest' filled in
    let checks = check_header-validate (parse_header hb) passed in
    (hb, ground arith, ground arith, ground arith, ground arith, ground arith, ground arith)

-- What is wrong once the 16 bytes `hb` are read, with `s'` still to come.
abbrev pub Fault : List ℕ → List ℕ → Error → Type 0
Fault hb s' e =
    Verdict (parse_header hb) (err e)
    ⊎ ((validate (parse_header hb) ≡ ok tt)
        × (length s' < (parse_header hb).body_length)
        × IsShort e)

body-Fault : (hb s' : List ℕ) (e : Error) → read_rest (parse_header hb) s' ≡ err e → Fault hb s' e
unfolding read_rest
body-Fault hb s' e h = elim (err_parts (check_header (parse_header hb)) _ h) [
  | inl bad ↦ inl (subst (Verdict (parse_header hb)) bad (check_header-Verdict (parse_header hb)))
  | inr (_, passed, h') ↦ elim (err_parts (read_full (parse_header hb).body_length s') _ h') [
    | inl short ↦
        let (less, which) = read_full-err (parse_header hb).body_length s' e short in
        inr ((check_header-validate (parse_header hb) passed).0, less, which)
    | inr (_, _, never) ↦ cc
  ]
]

-- A header of 16 bytes is judged by magic, version, length and message type, in that order: the first
-- that is wrong decides the error. A stream that ends inside the header, or inside the body of a
-- header that passes, gives one of the errors of a short read and no frame.
pub read_frame-rejects :
    (s : List ℕ) (e : Error)
    → read_frame s ≡ err e
    → ((length s < header_len) × IsShort e)
      ⊎ ((hb : List ℕ) × (s' : List ℕ) × (s ≡ hb ++ s') × (length hb ≡ header_len) × Fault hb s' e)
unfolding read_frame
read_frame-rejects s e h = elim (err_parts (read_full header_len s) _ h) [
  | inl short ↦ inl (read_full-err header_len s e short)
  | inr ((hb, s'), got, h') ↦
      let (sixteen, split) = read_full-ok header_len s hb s' got in
      inr (hb, s', split, sixteen, body-Fault hb s' e h')
]
