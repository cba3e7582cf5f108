-- ===== src/Lss/Session/Clients.antt =====
-- The clients of a session: each one's turn depends on itself alone, those that stay are ready for
-- the next write, and those that left are closed.
use lazyssh.Base.{
  ℕ, true, false, List, [], ◌∷◌, Bytes, ◌≡◌, refl, ltb, length, All, arith, ◌==◌, nat_eq,
  Bool-cases, inl, inr, All-append,
}
use lazyssh.Lss.Conn.{Conn, write, set_deadline}
use lazyssh.Lss.Frame.{f_data, header, write_frame}
use lazyssh.Lss.Session.{
  Session, Event, output, tick, join, leave, send, broadcast, delete, feed, ping, add, remove, step,
  run,
}

-- Open, and under no deadline.
pub record IsReady (c : Conn) : Type 0 where
  pub alive : c.closed ≡ false
  pub patient : c.deadline ≡ false

abbrev pub IsClosed : Conn → Type 0
IsClosed c = c.closed ≡ true

write-closed :
    (c : Conn) (p : Bytes)
    → ((write c p).0.closed ≡ c.closed) × ((write c p).1 ≡ true → c.closed ≡ false)
unfolding write
write-closed c p = ground arith

write_frame-closed :
    (c : Conn) (typ : ℕ) (p : Bytes)
    → (write_frame c typ p).1 ≡ true
    → (write_frame c typ p).0.closed ≡ false
unfolding write_frame
write_frame-closed c typ p h =
    let c' = (write c (header typ (length p))).0 in
    ground (arith, write-closed c (header typ (length p)), write-closed c' p)

pub send-IsReady :
    (c : Conn) (typ : ℕ) (p : Bytes) → (send c typ p).1 ≡ true → IsReady (send c typ p).0
unfolding send
send-IsReady c typ p h = ground (arith, write_frame-closed (set_deadline true c) typ p)

send-IsClosed :
    (c : Conn) (typ : ℕ) (p : Bytes) → (send c typ p).1 ≡ false → IsClosed (send c typ p).0
unfolding send
send-IsClosed c typ p h = ground arith

broadcast-All :
    (cs : List Conn) (typ : ℕ) (p : Bytes)
    → All IsReady (broadcast cs typ p).0 × All IsClosed (broadcast cs typ p).1
unfolding broadcast
broadcast-All [] typ p = (tt, tt)
broadcast-All (c ∷ cs) typ p =
    let (stay, dropped) = broadcast-All cs typ p in
    elim (Bool-cases (send c typ p).1) [
      | inl e ↦ rw e ((send-IsReady c typ p e, stay), dropped)
      | inr e ↦ rw e (stay, (send-IsClosed c typ p e, dropped))
    ]

delete-All :
    (cs : List Conn) (id : ℕ)
    → All IsReady cs
    → All IsReady (delete cs id).0 × All IsClosed (delete cs id).1
unfolding delete
delete-All [] id h = (tt, tt)
delete-All (c ∷ cs) id (r, h) =
    let (stay, out) = delete-All cs id h in
    elim (Bool-cases (c.id == id)) [
      | inl e ↦ rw e (stay, (refl, out))
      | inr e ↦ rw e ((r, stay), out)
    ]

-- Whoever is attached is ready, and whoever left is closed.
pub record IsSound (s : Session) : Type 0 where
  pub attached : All IsReady s.clients
  pub left : All IsClosed s.gone

-- The connections that the accept loop hands over are ready.
abbrev pub Joins : Event → Type 0
Joins (output p) = Unit
Joins tick = Unit
Joins (join c) = IsReady c
Joins (leave id) = Unit

ping-IsSound : (s : Session) → IsSound s → IsSound (ping s)
unfolding ping
ping-IsSound s v =
    let (stay, dropped) = broadcast-All s.clients f_data [] in
    record { attached = stay; left = All-append IsClosed s.gone _ v.left dropped }

feed-IsSound : (s : Session) (p : Bytes) → IsSound s → IsSound (feed s p)
unfolding feed
feed-IsSound s p v =
    let (stay, dropped) = broadcast-All s.clients f_data p in
    record { attached = stay; left = All-append IsClosed s.gone _ v.left dropped }

add-IsSound : (s : Session) (c : Conn) → IsReady c → IsSound s → IsSound (add s c).0
unfolding add
add-IsSound s c r v = elim (Bool-cases (ltb 0 (length s.scrollback))) [
  | inl some_output ↦ elim (Bool-cases (send c f_data s.scrollback).1) [
    | inl e ↦
        rw (some_output, e)
          (record {
            attached =
                All-append IsReady s.clients _ v.attached
                  (send-IsReady c f_data s.scrollback e, tt);
            left = v.left;
          })
    | inr e ↦
        rw (some_output, e)
          (record {
            attached = v.attached;
            left = All-append IsClosed s.gone _ v.left (send-IsClosed c f_data s.scrollback e, tt);
          })
  ]
  | inr no_output ↦
      rw no_output
        (record { attached = All-append IsReady s.clients _ v.attached (r, tt); left = v.left })
]

remove-IsSound : (s : Session) (id : ℕ) → IsSound s → IsSound (remove s id)
unfolding remove
remove-IsSound s id v =
    let (stay, out) = delete-All s.clients id v.attached in
    record { attached = stay; left = All-append IsClosed s.gone _ v.left out }

step-IsSound : (s : Session) (e : Event) → Joins e → IsSound s → IsSound (step s e)
unfolding step
step-IsSound s (output p) j v = elim (Bool-cases (ltb 0 (length p))) [
  | inl e ↦ rw e (feed-IsSound s p v)
  | inr e ↦ rw e v
]
step-IsSound s tick j v = ping-IsSound s v
step-IsSound s (join c) j v = add-IsSound s c j v
step-IsSound s (leave id) j v = remove-IsSound s id v

-- Whatever happens, in whatever order, every attached client is open and under no write deadline,
-- and every connection that left the session is closed, if this holds at the start and the
-- connections that join are open and under no deadline.
pub run-IsSound : (s : Session) (es : List Event) → All Joins es → IsSound s → IsSound (run s es)
unfolding run
run-IsSound s [] j v = v
run-IsSound s (e ∷ es) (j, js) v = run-IsSound (step s e) es js (step-IsSound s e j v)
