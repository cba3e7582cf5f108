-- ===== src/Lss/Session/Mirror.antt =====
-- What is sent to one attached client, and what the loop of cmd/lss/client.go prints of it.
use lazyssh.Base.{
  ℕ, suc, ◌+◌, ◌-◌, ◌^◌, ◌<◌, ◌≤◌, true, Option, none, some, List, [], ◌∷◌, ◌++◌, Bytes, ◌≡◌, refl,
  ap, ◌∙◌, length, All, arith, nat_eq, append_assoc, append-nil, length-drop,
}
use lazyssh.Lss.Conn.{Conn, set_deadline}
use lazyssh.Lss.Frame.{f_data, eof}
use lazyssh.Lss.Frame.RoundTrip.{frame, sent-write_frame, read_frame_small, read_frame_end}
use lazyssh.Lss.Client.{receive, lost, shown}
use lazyssh.Lss.Session.{Session, Event, output, tick, join, leave, max_scrollback, send}
use lazyssh.Lss.Session.Follow.{kept, turn, and_then, follow, replay_to, admit}
use lazyssh.Lss.Session.Scrollback.{last, printed}

-- What an event sends to a client that stays.
abbrev frames : Event → Bytes
frames (output []) = []
frames (output (b ∷ p)) = frame f_data (b ∷ p)
frames tick = frame f_data []
frames (join c) = []
frames (leave id) = []

abbrev wire : List Event → Bytes
wire [] = []
wire (e ∷ es) = frames e ++ wire es

sent-send :
    (c d : Conn) (p : Bytes) → kept (send c f_data p) ≡ some d → d.sent ≡ c.sent ++ frame f_data p
unfolding send
sent-send c d p h = ground (arith, sent-write_frame (set_deadline true c) f_data p)

sent-turn : (c d : Conn) (e : Event) → turn c e ≡ some d → d.sent ≡ c.sent ++ frames e
unfolding turn
sent-turn c d (output []) h = ground (arith, append-nil c.sent)
sent-turn c d (output (b ∷ p)) h = sent-send c d (b ∷ p) (ground arith)
sent-turn c d tick h = sent-send c d [] h
sent-turn c d (join c') h = ground (arith, append-nil c.sent)
sent-turn c d (leave id) h = ground (arith, append-nil c.sent)

and_then-eq-some :
    (o : Option Conn) (f : Conn → Option Conn) (d : Conn)
    → and_then o f ≡ some d
    → (c : Conn) × (o ≡ some c) × (f c ≡ some d)
and_then-eq-some none f d h = cc
and_then-eq-some (some c) f d h = (c, refl, h)

sent-follow : (es : List Event) (c d : Conn) → follow es c ≡ some d → d.sent ≡ c.sent ++ wire es
unfolding follow
sent-follow [] c d h = ground (arith, append-nil c.sent)
sent-follow (e ∷ es) c d h =
    let (c', first, rest) = and_then-eq-some (turn c e) (follow es) d h in
    sent-follow es c' d rest
    ∙ ap (λ b. b ++ wire es) (sent-turn c c' e first)
    ∙ append_assoc c.sent (frames e) (wire es)

-- The chunks of the drain loop hold at most 4096 bytes.
abbrev pub IsChunk : Event → Type 0
IsChunk (output p) = length p ≤ 4096
IsChunk tick = Unit
IsChunk (join c) = Unit
IsChunk (leave id) = Unit

-- How many frames a client gets.
abbrev pub count_frames : List Event → ℕ
count_frames [] = 0
count_frames (output [] ∷ es) = count_frames es
count_frames (output (b ∷ p) ∷ es) = suc (count_frames es)
count_frames (tick ∷ es) = suc (count_frames es)
count_frames (join c ∷ es) = count_frames es
count_frames (leave id ∷ es) = count_frames es

shown-eq : (p : Bytes) → shown p ≡ p
shown-eq [] = refl
shown-eq (b ∷ p) = ground arith

receive_data :
    (fuel : ℕ) (p rest : Bytes)
    → length p < 2 ^ 24
    → receive (suc fuel) (frame f_data p ++ rest)
      ≡ (p ++ (receive fuel rest).0, (receive fuel rest).1)
unfolding receive
receive_data fuel p rest small =
    rw (read_frame_small f_data p rest small, receive)
      (ap (λ (q : Bytes). (q ++ (receive fuel rest).0, (receive fuel rest).1)) (shown-eq p))

receive_end : (fuel : ℕ) → receive (suc fuel) [] ≡ ([], some (lost eof))
unfolding receive
receive_end fuel = rw (read_frame_end, receive)

receive-frame :
    (p : Bytes) (n spare : ℕ) (rest : Bytes) {shows : Bytes}
    → length p < 2 ^ 24
    → receive (n + suc spare) rest ≡ (shows, some (lost eof))
    → receive (suc n + suc spare) (frame f_data p ++ rest) ≡ (p ++ shows, some (lost eof))
receive-frame p n spare rest small h =
    let more : suc n + suc spare ≡ suc (n + suc spare) = omega arith in
    rw (more, receive_data (n + suc spare) p rest small, h)

receive-wire :
    (es : List Event) (spare : ℕ)
    → All IsChunk es
    → receive (count_frames es + suc spare) (wire es) ≡ (printed es, some (lost eof))
receive-wire [] spare h =
    ap (λ f. receive f []) {x = 0 + suc spare} (omega arith) ∙ receive_end spare
receive-wire (output [] ∷ es) spare (h, hs) = receive-wire es spare hs
receive-wire (output (b ∷ p) ∷ es) spare (h, hs) =
    receive-frame (b ∷ p) (count_frames es) spare (wire es) (omega arith) (receive-wire es spare hs)
receive-wire (tick ∷ es) spare (h, hs) =
    receive-frame [] (count_frames es) spare (wire es) (omega arith) (receive-wire es spare hs)
receive-wire (join c ∷ es) spare (h, hs) = receive-wire es spare hs
receive-wire (leave id ∷ es) spare (h, hs) = receive-wire es spare hs

length-last : (n : ℕ) (bs : Bytes) → length (last n bs) ≤ n
length-last n bs = omega (arith, length-drop (length bs - n) bs)

-- The frame of the replay.
abbrev replay : Bytes → Bytes
replay [] = []
replay (b ∷ p) = frame f_data (b ∷ p)

sent-replay_to :
    (buffered : Bytes) (c c' : Conn)
    → replay_to buffered c ≡ some c'
    → c'.sent ≡ c.sent ++ replay buffered
unfolding replay_to
sent-replay_to [] c c' h = ground (arith, append-nil c.sent)
sent-replay_to (b ∷ p) c c' h = sent-send c c' (b ∷ p) (ground arith)

receive-replay :
    (buffered : Bytes) (es : List Event)
    → length buffered ≤ max_scrollback
    → All IsChunk es
    → receive (count_frames es + 2) (replay buffered ++ wire es)
      ≡ (buffered ++ printed es, some (lost eof))
receive-replay [] es h chunks = receive-wire es 1 chunks
receive-replay (b ∷ p) es h chunks =
    let n = count_frames es in
    ap (λ f. receive f (frame f_data (b ∷ p) ++ wire es)) {x = n + 2} (omega arith)
    ∙ receive-frame (b ∷ p) n 0 (wire es) (omega arith) (receive-wire es 0 chunks)

-- A client that joins a session and stays through the events `es` prints exactly the last 256 KB
-- of what was printed before it came, and then all that is printed while it is attached.
pub receive-mirror :
    (s : Session) (past : Bytes) (c c' d : Conn) (es : List Event)
    → s.scrollback ≡ last max_scrollback past
    → c.sent ≡ []
    → All IsChunk es
    → admit s c ≡ some c'
    → follow es c' ≡ some d
    → receive (count_frames es + 2) d.sent
      ≡ (last max_scrollback past ++ printed es, some (lost eof))
receive-mirror s past c c' d es buffered fresh chunks joined stays =
    let bs = s.scrollback in
    let sent : d.sent ≡ replay bs ++ wire es =
      sent-follow es c' d stays
      ∙ ap (λ b. b ++ wire es) (sent-replay_to bs c c' joined ∙ rw fresh) in
    let size : length bs ≤ max_scrollback = rw buffered (length-last max_scrollback past) in
    rw sent (receive-replay bs es size chunks ∙ rw buffered)
