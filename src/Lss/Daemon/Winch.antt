-- ===== src/Lss/Daemon/Winch.antt =====
-- The size of a client's terminal reaches the daemon: client.go's `sendWinch` against daemon.go's
-- `handleClient`.
use lazyssh.Base.{
  ℕ, suc, ◌+◌, ◌/◌, ◌%◌, ◌^◌, ◌<◌, ◌≢◌, [], ◌∷◌, ◌++◌, Bytes, ◌≡◌, refl, ap, Bool, ◌∙◌, length,
  arith,
}
use lazyssh.Base.Bits.{bit_or-shift}
use lazyssh.Lss.Conn.{Conn}
use lazyssh.Lss.Frame.{f_winch}
use lazyssh.Lss.Frame.RoundTrip.{frame, IsOpen, write_frame-IsOpen, read_frame_small}
use lazyssh.Lss.Client.{winch_payload, send_winch}
use lazyssh.Lss.Daemon.{resize, word, winch, handle}

word-winch_payload :
    (w h : ℕ)
    → w < 2 ^ 16
    → h < 2 ^ 16
    → (word (winch_payload w h) 0 ≡ h)
      × (word (winch_payload w h) 2 ≡ w)
      × (length (winch_payload w h) ≡ 4)
unfolding word winch_payload
word-winch_payload w h hw hh = (
  bit_or-shift 8 (h / 2 ^ 8 % 256) (h % 256) (omega arith) ∙ omega arith,
  bit_or-shift 8 (w / 2 ^ 8 % 256) (w % 256) (omega arith) ∙ omega arith,
  refl,
)

winch-winch_payload :
    (w h : ℕ)
    → w < 2 ^ 16
    → h < 2 ^ 16
    → winch (winch_payload w h) ≡ resize h ((w + 1) % 2 ^ 16) ∷ resize h w ∷ []
unfolding winch
winch-winch_payload w h hw hh =
    let (rows, cols, size) = word-winch_payload w h hw hh in rw (size, rows, cols)

handle-winch :
    (fuel : ℕ) (p rest : Bytes)
    → length p < 2 ^ 24
    → (handle (suc fuel) (frame f_winch p ++ rest)).0 ≡ winch p ++ (handle fuel rest).0
unfolding handle
handle-winch fuel p rest small = rw (read_frame_small f_winch p rest small, handle)

sent-send_winch :
    (c : Conn) (w h : ℕ)
    → IsOpen c
    → (send_winch c w h).sent ≡ c.sent ++ frame f_winch (winch_payload w h)
unfolding send_winch
sent-send_winch c w h o =
    ap (λ (r : Conn × Bool). r.0.sent) (write_frame-IsOpen c f_winch (winch_payload w h) o)

-- A client of w columns and h rows makes the daemon set a size one column wider, and then the
-- true one; the first differs from it, so that the terminal is redrawn.
pub handle-send_winch :
    (c : Conn) (w h fuel : ℕ) (rest : Bytes)
    → IsOpen c
    → c.sent ≡ []
    → w < 2 ^ 16
    → h < 2 ^ 16
    → ((handle (suc fuel) ((send_winch c w h).sent ++ rest)).0
        ≡ resize h ((w + 1) % 2 ^ 16) ∷ resize h w ∷ (handle fuel rest).0)
      × ((w + 1) % 2 ^ 16 ≢ w)
handle-send_winch c w h fuel rest o fresh hw hh =
    let p = winch_payload w h in
    let size = (word-winch_payload w h hw hh).2 in
    let sent : (send_winch c w h).sent ≡ frame f_winch p = sent-send_winch c w h o ∙ rw fresh in
    (
      rw sent (handle-winch fuel p rest (omega (arith, size)) ∙ rw (winch-winch_payload w h hw hh)),
      omega arith,
    )
