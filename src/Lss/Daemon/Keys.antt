-- ===== src/Lss/Daemon/Keys.antt =====
-- What is typed at a client reaches the terminal: client.go's input loop against daemon.go's
-- `handleClient`.
use lazyssh.Base.{
  ℕ, suc, ◌+◌, ◌^◌, ◌<◌, ◌≤◌, true, false, some, List, [], ◌∷◌, ◌++◌, map, Bytes, ◌≡◌, refl, sym,
  ap, subst, ◌∙◌, length, All, arith, append_assoc, append-nil,
}
use lazyssh.Lss.Conn.{Conn}
use lazyssh.Lss.Frame.{f_data, f_detach, eof}
use lazyssh.Lss.Frame.RoundTrip.{
  frame, IsOpen, write_frame-IsOpen, read_frame_small, read_frame_end,
}
use lazyssh.Lss.Client.{has_detach_key, type_in}
use lazyssh.Lss.Daemon.{keys, lost, detached, handle}

-- A read of at most 1024 bytes without the detach key.
pub record IsPlain (chunk : Bytes) : Type 0 where
  pub no_key : has_detach_key chunk ≡ false
  pub size : length chunk ≤ 1024

-- The frames of some chunks, one after the other.
abbrev wire : List Bytes → Bytes
wire [] = []
wire (chunk ∷ chunks) = frame f_data chunk ++ wire chunks

type_in-append :
    (c : Conn) (chunks more : List Bytes)
    → IsOpen c
    → All IsPlain chunks
    → type_in c (chunks ++ more) ≡ type_in (record c { sent = c.sent ++ wire chunks }) more
unfolding type_in
type_in-append c [] more o h = rw append-nil
type_in-append c (chunk ∷ chunks) more o (p, h) =
    let c' : Conn = record c { sent = c.sent ++ frame f_data chunk } in
    let o' : IsOpen c' = record { alive = o.alive; unlimited = o.unlimited } in
    rw (p.no_key, write_frame-IsOpen c f_data chunk o)
      (type_in-append c' chunks more o' h
        ∙ rw (append_assoc c.sent (frame f_data chunk) (wire chunks)))

handle_data :
    (fuel : ℕ) (p rest : Bytes)
    → length p < 2 ^ 24
    → handle (suc fuel) (frame f_data p ++ rest)
      ≡ (keys p ∷ (handle fuel rest).0, (handle fuel rest).1)
unfolding handle
handle_data fuel p rest small = rw (read_frame_small f_data p rest small, handle)

handle-wire :
    (chunks : List Bytes) (fuel : ℕ) (rest : Bytes)
    → All IsPlain chunks
    → handle (length chunks + fuel) (wire chunks ++ rest)
      ≡ (map keys chunks ++ (handle fuel rest).0, (handle fuel rest).1)
handle-wire [] fuel rest h = ap (λ f. handle f rest) {x = 0 + fuel} (omega arith)
handle-wire (chunk ∷ chunks) fuel rest (p, h) =
    let more : suc (length chunks) + fuel ≡ suc (length chunks + fuel) = omega arith in
    let chunk_size = p.size in
    rw (more, append_assoc (frame f_data chunk) (wire chunks) rest)
      (rw (
        handle_data (length chunks + fuel) chunk (wire chunks ++ rest) (omega arith),
        handle-wire chunks fuel rest h,
      ))

sent-type_in_nil : (c : Conn) → (type_in c []).0.sent ≡ c.sent
unfolding type_in
sent-type_in_nil c = refl

sent-type_in_key :
    (c : Conn) (chunk : Bytes) (more : List Bytes)
    → IsOpen c
    → has_detach_key chunk ≡ true
    → (type_in c (chunk ∷ more)).0.sent ≡ c.sent ++ frame f_detach []
unfolding type_in
sent-type_in_key c chunk more o key = rw (key, write_frame-IsOpen c f_detach [] o)

handle_end : handle 1 [] ≡ ([], some (lost eof))
unfolding handle
handle_end = rw (read_frame_end, handle)

handle_detach : (fuel : ℕ) → handle (suc fuel) (frame f_detach [] ++ []) ≡ ([], some detached)
unfolding handle
handle_detach fuel = rw (read_frame_small f_detach [] [] (omega arith), handle)

module _ (c : Conn) (chunks : List Bytes) (o : IsOpen c) (fresh : c.sent ≡ [])
    (h : All IsPlain chunks) where
  after : Conn
  after = record c { sent = c.sent ++ wire chunks }

  after-IsOpen : IsOpen after
  unfolding after
  after-IsOpen = record { alive = o.alive; unlimited = o.unlimited }

  sent-after : after.sent ≡ wire chunks
  unfolding after
  sent-after = rw fresh

  type_in-after : (more : List Bytes) → type_in c (chunks ++ more) ≡ type_in after more
  unfolding after
  type_in-after more = type_in-append c chunks more o h

  -- Typing without the detach key: the terminal gets the chunks, in order and whole, and the
  -- daemon sees the stream end when the client is gone.
  pub handle-type_in :
      handle (length chunks + 1) (type_in c chunks).0.sent ≡ (map keys chunks, some (lost eof))
  handle-type_in =
      let sent : (type_in c (chunks ++ [])).0.sent ≡ wire chunks ++ [] =
        rw (type_in-after [])
          (sent-type_in_nil after ∙ sent-after ∙ sym (append-nil (wire chunks))) in
      let typed : (type_in c chunks).0.sent ≡ wire chunks ++ [] =
        subst (λ l. (type_in c l).0.sent ≡ wire chunks ++ []) (append-nil chunks) sent in
      rw (typed, handle-wire chunks 1 [] h) (rw (handle_end, append-nil))

  -- The detach key ends the client's turn at the daemon. The terminal has got the chunks read
  -- before it; of the read that holds the key nothing arrives, also not what stands before the key.
  pub handle-type_in_detach :
      (chunk : Bytes) (more : List Bytes)
      → has_detach_key chunk ≡ true
      → handle (length chunks + 1) (type_in c (chunks ++ chunk ∷ more)).0.sent
        ≡ (map keys chunks, some detached)
  handle-type_in_detach chunk more key =
      let typed : (type_in c (chunks ++ chunk ∷ more)).0.sent
          ≡ wire chunks ++ (frame f_detach [] ++ []) =
        rw (type_in-after (chunk ∷ more)) (
          sent-type_in_key after chunk more after-IsOpen key
          ∙ rw sent-after (ap (λ b. wire chunks ++ b) (sym (append-nil (frame f_detach []))))) in
      rw (typed, handle-wire chunks 1 (frame f_detach [] ++ []) h)
        (rw (handle_detach 0, append-nil))
