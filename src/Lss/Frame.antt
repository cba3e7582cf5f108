-- ===== src/Lss/Frame.antt =====
-- cmd/lss/proto.go: the framed protocol between the session daemon and its clients.
use lazyssh.Base.Bits.{bit_or-shift}
use Prim.Native.Nat.{bit_or}
pub mod RoundTrip
use lazyssh.Base.{
  ℕ, ◌*◌, ◌/◌, ◌%◌, ◌^◌, Bool, true, false, List, [], ◌∷◌, Bytes, ltb, leb, length, take, drop,
  get_or, ◌==◌, nat_eq, if◌then◌else◌,
}
use lazyssh.Base.Result.{Result, ok, err, ◌>>=◌}
use lazyssh.Lss.Conn.{Conn, write}

abbrev pub f_data : ℕ
f_data = 0

abbrev pub f_winch : ℕ
f_winch = 1

abbrev pub f_detach : ℕ
f_detach = 2

abbrev pub f_error : ℕ
f_error = 3

-- `byte(n >> 16)` and so on drop what lies above eight bits.
unfoldable pub header : ℕ → ℕ → Bytes
header typ n = typ ∷ (n / 2 ^ 16 % 256) ∷ (n / 2 ^ 8 % 256) ∷ (n % 256) ∷ []

-- Two writes: the header, then the payload if there is one.
unfoldable pub write_frame : Conn → ℕ → Bytes → Conn × Bool
write_frame c typ payload =
    let n = length payload in
    let (c', sent) = write c (header typ n) in
    if sent then (if ltb 0 n then write c' payload else (c', true)) else (c', false)

pub data ReadError : Type 0 where
  eof unexpected_eof : ReadError

-- `io.ReadFull` on a stream that ends after the given bytes.
unfoldable pub read_full : Bytes → ℕ → Result ReadError (Bytes × Bytes)
read_full r n =
    if leb n (length r)
    then ok (take n r, drop n r)
    else err (if length r == 0 then eof else unexpected_eof)

-- The three length bytes, each a `uint32` that is shifted into place.
unfoldable pub frame_length : Bytes → ℕ
frame_length hdr =
    bit_or (bit_or (get_or hdr 1 0 * 2 ^ 16) (get_or hdr 2 0 * 2 ^ 8)) (get_or hdr 3 0)

-- No payload is read when the header announces none.
unfoldable pub read_payload : ℕ → ℕ → Bytes → Result ReadError (ℕ × Bytes × Bytes)
unfolding read_full
read_payload typ n r =
    if n == 0 then ok (typ, [], r) else do (payload, r') ← read_full r n; ok (typ, payload, r')

-- The frame's type, its payload and the unread rest of the stream.
unfoldable pub read_frame : Bytes → Result ReadError (ℕ × Bytes × Bytes)
unfolding read_full frame_length read_payload
read_frame r = do (hdr, r') ← read_full r 4; read_payload (get_or hdr 0 0) (frame_length hdr) r'
