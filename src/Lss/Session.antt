-- ===== src/Lss/Session.antt =====
-- cmd/lss/daemon.go: the scrollback buffer and the session's attached clients. The Go map of
-- clients is a list here: Go fixes no order, and a round touches each connection by itself. A
-- connection that leaves the map stays in `gone`, so that what became of it can be stated.
pub mod Scrollback
pub mod Clients
pub mod Follow
pub mod Mirror
pub mod Watchers
use lazyssh.Base.{
  ℕ, ◌-◌, ◌*◌, Bool, true, false, List, [], ◌∷◌, ◌++◌, Bytes, ltb, length, drop, ◌==◌, nat_eq,
  if◌then◌else◌,
}
use lazyssh.Lss.Conn.{Conn, set_deadline, close}
use lazyssh.Lss.Frame.{f_data, write_frame}

abbrev pub max_scrollback : ℕ
max_scrollback = 256 * 1024

-- `scrollback.write`
unfoldable pub write_scrollback : Bytes → Bytes → Bytes
write_scrollback buffered p =
    let all = buffered ++ p in
    if ltb max_scrollback (length all) then drop (length all - max_scrollback) all else all

pub record Session : Type 0 where
  pub clients : List Conn
  pub scrollback : Bytes
  pub gone : List Conn

abbrev pub init : Session
init = record { clients = []; scrollback = []; gone = [] }

-- One client's turn: a write under a deadline, which is lifted again if the write went well.
unfoldable pub send : Conn → ℕ → Bytes → Conn × Bool
send c typ payload =
    let (c', sent) = write_frame (set_deadline true c) typ payload in
    if sent then (set_deadline false c', true) else (close c', false)

-- `broadcastLocked`: the clients that stay, and those that are dropped.
unfoldable pub broadcast : List Conn → ℕ → Bytes → List Conn × List Conn
broadcast [] typ payload = ([], [])
broadcast (c ∷ cs) typ payload =
    let (stay, dropped) = broadcast cs typ payload in
    let (c', sent) = send c typ payload in
    if sent then (c' ∷ stay, dropped) else (stay, c' ∷ dropped)

unfoldable pub feed : Session → Bytes → Session
feed s p =
    let (stay, dropped) = broadcast s.clients f_data p in
    record {
      clients = stay;
      scrollback = write_scrollback s.scrollback p;
      gone = s.gone ++ dropped;
    }

unfoldable pub ping : Session → Session
ping s =
    let (stay, dropped) = broadcast s.clients f_data [] in
    record s { clients = stay; gone = s.gone ++ dropped }

-- The replay comes before the registration.
unfoldable pub add : Session → Conn → Session × Bool
add s c =
    if ltb 0 (length s.scrollback)
    then (let (c', sent) = send c f_data s.scrollback in
        if sent
        then (record s { clients = s.clients ++ c' ∷ [] }, true)
        else (record s { gone = s.gone ++ c' ∷ [] }, false))
    else (record s { clients = s.clients ++ c ∷ [] }, true)

-- The clients without `id`, and those with it, closed.
unfoldable pub delete : List Conn → ℕ → List Conn × List Conn
delete [] id = ([], [])
delete (c ∷ cs) id =
    let (stay, out) = delete cs id in if c.id == id then (stay, close c ∷ out) else (c ∷ stay, out)

-- `remove`; a connection that was dropped before is closed already.
unfoldable pub remove : Session → ℕ → Session
remove s id =
    let (stay, out) = delete s.clients id in record s { clients = stay; gone = s.gone ++ out }

-- What happens to a session: a chunk of terminal output, the keepalive, a client that comes or
-- goes. The mutex makes each of them one step.
pub data Event : Type 0 where
  output : Bytes → Event
  tick : Event
  join : Conn → Event
  leave : ℕ → Event

-- The drain loop feeds only chunks that are not empty.
unfoldable pub step : Session → Event → Session
step s (output p) = if ltb 0 (length p) then feed s p else s
step s tick = ping s
step s (join c) = (add s c).0
step s (leave id) = remove s id

unfoldable pub run : Session → List Event → Session
run s [] = s
run s (e ∷ es) = run (step s e) es
