-- ===== src/Lss/Tests.antt =====
-- The theorems about cmd/lss at concrete inputs, and small runs of the code.
use lazyssh.Base.{
  ℕ, Bool, true, false, none, some, List, [], ◌∷◌, ◌++◌, map, Bytes, codes, ◌≡◌, refl, take, drop,
  arith, All, ◌==◌, nat_eq, bytes_beq, bytes_ne,
}
use lazyssh.Base.Result.{ok, err}
use lazyssh.Strings.{split, join, has_prefix}
use lazyssh.Paths.{join_path, clean, push, up, spell}
use lazyssh.Lss.Conn.{Conn, write}
use lazyssh.Lss.Frame.{f_data, header, write_frame, read_frame, ReadError, eof}
use lazyssh.Lss.Frame.RoundTrip.{frame, IsOpen, read_frame-write_frame, read_frame-take}
use lazyssh.Lss.Session.{Session, Event, output, tick, join as joins, leave, init, run, send}
use lazyssh.Lss.Session.Clients.{IsSound, run-IsSound}
use lazyssh.Lss.Session.Follow.{follow, turn, admit, replay_to}
use lazyssh.Lss.Session.Watchers.{Mirrors, run-Mirrors}
use lazyssh.Lss.Client.{type_in, has_detach_key}
use lazyssh.Lss.Daemon.{keys, resize, handle, detached}
use lazyssh.Lss.Daemon
use lazyssh.Lss.Daemon.Keys.{IsPlain, handle-type_in, handle-type_in_detach}
use lazyssh.Lss.Commands.{File, sessions_dir, sock_path, list_sessions, new, usage, hint, main}
use lazyssh.Lss.Commands.Listing.{live_names, IsDirectory, list_sessions-live_names}

abbrev conn : Conn
conn = record { id = 1; sent = []; room = none; deadline = false; closed = false }

conn-IsOpen : IsOpen conn
conn-IsOpen = record { alive = refl; unlimited = refl }

abbrev hello : Bytes
hello = codes "hello"

hello_written : (write_frame conn f_data hello).1 ≡ true
unfolding write_frame write
hello_written = refl

read_frame-write_frame_example :
    read_frame (drop 0 (write_frame conn f_data hello).0.sent ++ codes "!")
    ≡ ok (f_data, hello, codes "!")
read_frame-write_frame_example =
    read_frame-write_frame conn f_data hello (codes "!") hello_written (omega arith)

read_frame-take_example : (e : ReadError) × (read_frame (take 6 (frame f_data hello)) ≡ err e)
unfolding header
read_frame-take_example = read_frame-take f_data 6 hello (omega arith) (omega arith)

-- A session that has printed, with a client that joins, and goes on printing.
abbrev busy : Session
busy = record { clients = []; scrollback = codes "$ "; gone = [] }

abbrev day : List Event
day = output (codes "ls") ∷ tick ∷ leave 7 ∷ []

busy-IsSound : IsSound busy
busy-IsSound = record { attached = tt; left = tt }

run-IsSound_example : IsSound (run busy (joins conn ∷ day))
run-IsSound_example =
    run-IsSound busy (joins conn ∷ day)
      (record { alive = refl; patient = refl }, (tt, (tt, (tt, tt)))) busy-IsSound

abbrev joined : Conn
joined = record conn { sent = frame f_data (codes "$ ") }

abbrev later : Conn
later = record conn {
  sent = frame f_data (codes "$ ") ++ (frame f_data (codes "ls") ++ frame f_data []);
}

joined_by_add : admit busy conn ≡ some joined
unfolding replay_to send write_frame write header
joined_by_add = refl

later_by_follow : follow day joined ≡ some later
unfolding follow turn send write_frame write header
later_by_follow = refl

-- A day at which one client comes after the prompt, and then another.
abbrev life : List Event
life = output (codes "$ ") ∷ joins conn ∷ output (codes "ls") ∷ joins (record conn { id = 2 }) ∷ []

run-Mirrors_example : All (Mirrors [] life) (run init life).clients
run-Mirrors_example = run-Mirrors life (tt, (refl, (tt, (refl, tt)))) (omega arith)

abbrev typed : List Bytes
typed = codes "ls" ∷ codes "\n" ∷ []

abbrev farewell : Bytes
farewell = codes "x" ++ (0x1c ∷ codes "y")

typed-IsPlain : All IsPlain typed
unfolding has_detach_key
typed-IsPlain = (
  record { no_key = refl; size = omega arith },
  (record { no_key = refl; size = omega arith }, tt),
)

farewell_has_key : has_detach_key farewell ≡ true
unfolding has_detach_key
farewell_has_key = refl

handle-type_in_example :
    handle 3 (type_in conn typed).0.sent ≡ (map keys typed, some (Daemon.lost eof))
handle-type_in_example = handle-type_in conn typed conn-IsOpen refl typed-IsPlain

handle-type_in_detach_example :
    handle 3 (type_in conn (typed ++ farewell ∷ [])).0.sent ≡ (map keys typed, some detached)
handle-type_in_detach_example =
    handle-type_in_detach conn typed conn-IsOpen refl typed-IsPlain farewell [] farewell_has_key

-- Process 7 runs, and 8 does not.
abbrev alive : ℕ → Bool
alive pid = pid == 7

abbrev directory : List File
directory =
    record { name = codes "a.pid"; content = some (codes "7\n") }
    ∷ record { name = codes "b.pid"; content = some (codes "8\n") }
    ∷ []

directory-IsDirectory : IsDirectory directory
unfolding bytes_beq
directory-IsDirectory = ((bytes_ne (codes "a.pid") (codes "b.pid") refl, tt), (tt, tt))

list_sessions-live_names_example : (list_sessions alive directory).0 ≡ live_names alive directory
list_sessions-live_names_example = list_sessions-live_names alive directory directory-IsDirectory

work_socket :
    sock_path (codes "/home/a/") (codes "work") ≡ codes "/home/a/.lazyssh/sessions/work.sock"
unfolding sock_path sessions_dir join_path clean push up spell split join has_prefix bytes_beq
work_socket = refl

new_needs_name :
    (main false (codes "new" ∷ []) ≡ hint (codes "lss new <name>"))
    × (main false (codes "new" ∷ codes "a" ∷ codes "b" ∷ []) ≡ new (codes "a"))
    × (main false [] ≡ usage)
unfolding main bytes_beq
new_needs_name = (refl, refl, refl)
