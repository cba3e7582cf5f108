-- ===== src/Lss/Frame/RoundTrip.antt =====
-- Frames of cmd/lss/proto.go on a stream, whole and cut off.
use Prim.Native.Nat.{bit_or}
use lazyssh.Base.Bits.{bit_or-shift}
use lazyssh.Base.{
  ℕ, zero, suc, ◌+◌, ◌-◌, ◌*◌, ◌/◌, ◌%◌, ◌^◌, ◌≤◌, ◌<◌, true, false, [], ◌∷◌, ◌++◌, Bytes, ◌≡◌,
  refl, ◌∙◌, ltb, length, take, drop, get_or, nat_eq, arith, tests, append_assoc, append-nil,
  if◌then◌else◌, take-append_of_le, drop-append_of_le, length-append, drop-length-append,
  take-length, drop-length, le→leb, lt→leb, length-take, take-append_of_ge, nat_beq, Bool-cases,
  none, inl, inr,
}
use lazyssh.Base.Result.{ok, err}
use lazyssh.Lss.Conn.{Conn, write}
use lazyssh.Lss.Frame.{
  header, write_frame, read_full, frame_length, read_payload, read_frame, ReadError, eof,
  unexpected_eof,
}

-- A frame on the wire.
abbrev pub frame : ℕ → Bytes → Bytes
frame typ payload = header typ (length payload) ++ payload

-- A connection whose writes all go through.
pub record IsOpen (c : Conn) : Type 0 where
  pub alive : c.closed ≡ false
  pub unlimited : c.room ≡ none

write-IsOpen :
    (c : Conn) (p : Bytes) → IsOpen c → write c p ≡ (record c { sent = c.sent ++ p }, true)
unfolding write
write-IsOpen c p o = ground arith

pub write_frame-IsOpen :
    (c : Conn) (typ : ℕ) (p : Bytes)
    → IsOpen c
    → write_frame c typ p ≡ (record c { sent = c.sent ++ frame typ p }, true)
unfolding write_frame
write_frame-IsOpen c typ [] o =
    ground (arith, write-IsOpen c (header typ 0) o, append-nil (header typ 0))
write_frame-IsOpen c typ (b ∷ p) o =
    let hdr = header typ (length (b ∷ p)) in
    let c' : Conn = record c { sent = c.sent ++ hdr } in
    ground (
      arith,
      write-IsOpen c hdr o,
      write-IsOpen c' (b ∷ p) (record { alive = o.alive; unlimited = o.unlimited }),
      append_assoc c.sent hdr (b ∷ p),
    )

write_sends : (c : Conn) (p : Bytes) → (write c p).1 ≡ true → (write c p).0.sent ≡ c.sent ++ p
unfolding write
write_sends c p h = ground arith

pub sent-write_frame :
    (c : Conn) (typ : ℕ) (p : Bytes)
    → (write_frame c typ p).1 ≡ true
    → (write_frame c typ p).0.sent ≡ c.sent ++ frame typ p
unfolding write_frame
sent-write_frame c typ [] h =
    ground (arith, write_sends c (header typ 0), append-nil (header typ 0))
sent-write_frame c typ (b ∷ p) h =
    let n = length (b ∷ p) in
    let c' = (write c (header typ n)).0 in
    ground (
      arith,
      write_sends c (header typ n),
      write_sends c' (b ∷ p),
      append_assoc c.sent (header typ n) (b ∷ p),
    )

join_bytes :
    (x y z : ℕ)
    → y < 256
    → z < 256
    → bit_or (bit_or (x * 2 ^ 16) (y * 2 ^ 8)) z ≡ (x * 2 ^ 8 + y) * 2 ^ 8 + z
join_bytes x y z hy hz =
    let low : bit_or (x * 2 ^ 16) (y * 2 ^ 8) ≡ x * 2 ^ 16 + y * 2 ^ 8 =
      bit_or-shift 16 x (y * 2 ^ 8) (omega arith) in
    let regroup : x * 2 ^ 16 + y * 2 ^ 8 ≡ (x * 2 ^ 8 + y) * 2 ^ 8 = omega arith in
    rw (low ∙ regroup) (bit_or-shift 8 (x * 2 ^ 8 + y) z hz)

-- Three bytes hold the length modulo 2^24.
pub frame_length-header : (typ n : ℕ) → frame_length (header typ n) ≡ n % 2 ^ 24
unfolding frame_length header
frame_length-header typ n =
    join_bytes (n / 2 ^ 16 % 256) (n / 2 ^ 8 % 256) (n % 256) (omega arith) (omega arith)
    ∙ omega arith

read_full-append :
    (n : ℕ) (p rest : Bytes)
    → n ≤ length p
    → read_full (p ++ rest) n ≡ ok (take n p, drop n p ++ rest)
unfolding read_full
read_full-append n p rest h = rw (
  take-append_of_le n p rest h,
  drop-append_of_le n p rest h,
  le→leb n (length (p ++ rest)) (omega (arith, length-append p rest)),
)

read_payload-append :
    (typ n : ℕ) (p rest : Bytes)
    → n ≤ length p
    → read_payload typ n (p ++ rest) ≡ ok (typ, take n p, drop n p ++ rest)
unfolding read_payload
read_payload-append typ zero p rest h = refl
read_payload-append typ (suc n) p rest h = ground (arith, read_full-append (suc n) p rest h)

header_parts :
    (typ n : ℕ)
    → (take 4 (header typ n) ≡ header typ n)
      × (drop 4 (header typ n) ≡ [])
      × (get_or (header typ n) 0 0 ≡ typ)
      × (4 ≤ length (header typ n))
unfolding header
header_parts typ n = (refl, refl, refl, omega arith)

-- What the reader does behind a header.
read_frame-header :
    (typ n : ℕ) (r : Bytes) → read_frame (header typ n ++ r) ≡ read_payload typ (n % 2 ^ 24) r
unfolding read_frame
read_frame-header typ n r =
    let (head, tail, kind, size) = header_parts typ n in
    rw (read_full-append 4 (header typ n) r size) (rw (head, tail, kind, frame_length-header typ n))

-- The payload's reader gets what the header announces: the length modulo 2^24.
pub read_frame-frame :
    (typ : ℕ) (p rest : Bytes)
    → read_frame (frame typ p ++ rest)
      ≡ ok (typ, take (length p % 2 ^ 24) p, drop (length p % 2 ^ 24) p ++ rest)
read_frame-frame typ p rest =
    let n = length p in
    rw (append_assoc (header typ n) p rest, read_frame-header typ n (p ++ rest))
      (read_payload-append typ (n % 2 ^ 24) p rest (omega arith))

pub read_frame_small :
    (typ : ℕ) (p rest : Bytes)
    → length p < 2 ^ 24
    → read_frame (frame typ p ++ rest) ≡ ok (typ, p, rest)
read_frame_small typ p rest small =
    let whole : length p % 2 ^ 24 ≡ length p = omega arith in
    read_frame-frame typ p rest ∙ rw (whole, take-length p, drop-length p)

-- Below 16 MB the whole payload is read back, and the stream goes on behind the frame.
pub read_frame-write_frame :
    (c : Conn) (typ : ℕ) (p rest : Bytes)
    → (write_frame c typ p).1 ≡ true
    → length p < 2 ^ 24
    → read_frame (drop (length c.sent) (write_frame c typ p).0.sent ++ rest) ≡ ok (typ, p, rest)
read_frame-write_frame c typ p rest done small =
    rw (sent-write_frame c typ p done, drop-length-append c.sent (frame typ p))
      (read_frame_small typ p rest small)

short_read : (n : ℕ) (r : Bytes) → length r < n → (e : ReadError) × (read_full r n ≡ err e)
unfolding read_full
short_read n r h =
    (if nat_beq (length r) 0 then eof else unexpected_eof, rw (lt→leb n (length r) h))

short_payload :
    (typ n : ℕ) (r : Bytes) → length r < n → (e : ReadError) × (read_payload typ n r ≡ err e)
unfolding read_payload
short_payload typ zero r h = absurd (omega arith)
short_payload typ (suc n) r h =
    let (e, short) = short_read (suc n) r h in (e, ground (arith, short))

short_header : (r : Bytes) → length r < 4 → (e : ReadError) × (read_frame r ≡ err e)
unfolding read_frame
short_header r h = let (e, short) = short_read 4 r h in (e, rw short)

header_size : (typ n : ℕ) → length (header typ n) ≡ 4
unfolding header
header_size typ n = refl

-- A stream that ends inside a frame is an error, wherever it ends.
pub read_frame-take :
    (typ k : ℕ) (p : Bytes)
    → length p < 2 ^ 24
    → k < length (frame typ p)
    → (e : ReadError) × (read_frame (take k (frame typ p)) ≡ err e)
read_frame-take typ k p small cut = elim (Bool-cases (ltb k 4)) [
  | inl inside ↦ short_header (take k (frame typ p)) (omega (tests, length-take k (frame typ p)))
  | inr past ↦
      let n = length p in
      let four : length (header typ n) ≡ 4 = header_size typ n in
      let whole : n % 2 ^ 24 ≡ n = omega arith in
      let r = take (k - length (header typ n)) p in
      let short : length r < n =
        omega (
          tests,
          four,
          length-take (k - length (header typ n)) p,
          length-append (header typ n) p,
        ) in
      rw
        (
          take-append_of_ge k (header typ n) p (omega (tests, four)),
          read_frame-header typ n r,
          whole,
        )
        (short_payload typ n r short)
]

pub read_frame_end : read_frame [] ≡ err eof
unfolding read_frame
read_frame_end = refl
