-- ===== src/Lss/Session/Follow.antt =====
-- The turns of a single client of cmd/lss/daemon.go, and the map of clients against them.
use lazyssh.Base.{
  ℕ, Bool, true, false, Option, none, some, List, [], ◌∷◌, ◌++◌, Bytes, ◌≡◌, refl, sym, ap, ap₂,
  fun_ext, lt→ltb, ◌∙◌, ltb, length, arith, ◌==◌, nat_eq, append_assoc, append-nil, Option-cases,
  inl, inr, if◌then◌else◌,
}
use lazyssh.Lss.Conn.{Conn}
use lazyssh.Lss.Frame.{f_data}
use lazyssh.Lss.Session.{
  Session, Event, output, tick, join, leave, send, broadcast, delete, feed, ping, add, remove, step,
  run,
}

abbrev pub kept : Conn × Bool → Option Conn
kept (c, true) = some c
kept (c, false) = none

-- One event from the point of view of one client: what it is afterwards, if it is still attached.
unfoldable pub turn : Conn → Event → Option Conn
turn c (output p) = if ltb 0 (length p) then kept (send c f_data p) else some c
turn c tick = kept (send c f_data [])
turn c (join d) = some c
turn c (leave id) = if c.id == id then none else some c

abbrev pub and_then : Option Conn → (Conn → Option Conn) → Option Conn
and_then none f = none
and_then (some c) f = f c

unfoldable pub follow : List Event → Conn → Option Conn
follow [] c = some c
follow (e ∷ es) c = and_then (turn c e) (follow es)

-- The clients that are left, each by itself.
unfoldable pub survivors : (Conn → Option Conn) → List Conn → List Conn
survivors f [] = []
survivors f (c ∷ cs) = elim (f c) [ none ↦ survivors f cs | some d ↦ d ∷ survivors f cs ]

-- The connection that `add` registers, when this is the buffer.
unfoldable pub replay_to : Bytes → Conn → Option Conn
replay_to buffered c = if ltb 0 (length buffered) then kept (send c f_data buffered) else some c

abbrev pub admit : Session → Conn → Option Conn
admit s = replay_to s.scrollback

abbrev pub entry : Option Conn → List Conn
entry none = []
entry (some c) = c ∷ []

-- Those that join during the events, and are left at their end.
unfoldable pub newcomers : Session → List Event → List Conn
newcomers s [] = []
newcomers s (join c ∷ es) =
    survivors (follow es) (entry (admit s c)) ++ newcomers (step s (join c)) es
newcomers s (output p ∷ es) = newcomers (step s (output p)) es
newcomers s (tick ∷ es) = newcomers (step s tick) es
newcomers s (leave id ∷ es) = newcomers (step s (leave id)) es

survivors-append :
    (f : Conn → Option Conn) (cs ds : List Conn)
    → survivors f (cs ++ ds) ≡ survivors f cs ++ survivors f ds
unfolding survivors
survivors-append f [] ds = refl
survivors-append f (c ∷ cs) ds = ground (arith, survivors-append f cs ds)

survivors-some : (cs : List Conn) → survivors (λ c. some c) cs ≡ cs
unfolding survivors
survivors-some [] = refl
survivors-some (c ∷ cs) = rw (survivors-some cs)

survivors-follow :
    (e : Event) (es : List Event) (cs : List Conn)
    → survivors (follow es) (survivors (λ c. turn c e) cs) ≡ survivors (follow (e ∷ es)) cs
unfolding survivors follow
survivors-follow e es [] = refl
survivors-follow e es (c ∷ cs) = elim (Option-cases (turn c e)) [
  | inl out ↦ ground (arith, out, survivors-follow e es cs)
  | inr (d, stays) ↦ ground (arith, stays, survivors-follow e es cs)
]

broadcast-survivors :
    (cs : List Conn) (typ : ℕ) (p : Bytes)
    → (broadcast cs typ p).0 ≡ survivors (λ c. kept (send c typ p)) cs
unfolding broadcast survivors
broadcast-survivors [] typ p = refl
broadcast-survivors (c ∷ cs) typ p = ground (arith, broadcast-survivors cs typ p)

delete-survivors :
    (cs : List Conn) (id : ℕ)
    → (delete cs id).0 ≡ survivors (λ c. if c.id == id then none else some c) cs
unfolding delete survivors
delete-survivors [] id = refl
delete-survivors (c ∷ cs) id = ground (arith, delete-survivors cs id)

clients-add : (s : Session) (c : Conn) → (add s c).0.clients ≡ s.clients ++ entry (admit s c)
unfolding add replay_to
clients-add s c = ground (arith, append-nil s.clients)

abbrev pub joining : Session → Event → List Conn
joining s (join c) = entry (admit s c)
joining s (output p) = []
joining s tick = []
joining s (leave id) = []

clients-step :
    (s : Session) (e : Event)
    → (step s e).clients ≡ survivors (λ c. turn c e) s.clients ++ joining s e
unfolding step turn feed ping remove
clients-step s (output []) = sym (append-nil _ ∙ survivors-some s.clients)
clients-step s (output (b ∷ p)) =
    let printing : ltb 0 (length (b ∷ p)) ≡ true = lt→ltb 0 (length (b ∷ p)) (omega arith) in
    ap (λ t. (if t then feed s (b ∷ p) else s).clients) printing
    ∙ broadcast-survivors s.clients f_data (b ∷ p)
    ∙ ap (λ f. survivors f s.clients)
        (fun_ext (λ c. ap (λ t. if t then kept (send c f_data (b ∷ p)) else some c) (sym printing)))
    ∙ sym (append-nil _)
clients-step s tick = broadcast-survivors s.clients f_data [] ∙ sym (append-nil _)
clients-step s (join c) =
    clients-add s c ∙ ap (λ l. l ++ entry (admit s c)) (sym (survivors-some s.clients))
clients-step s (leave id) = delete-survivors s.clients id ∙ sym (append-nil _)

pub newcomers-step :
    (s : Session) (e : Event) (es : List Event)
    → newcomers s (e ∷ es) ≡ survivors (follow es) (joining s e) ++ newcomers (step s e) es
unfolding newcomers survivors
newcomers-step s (join c) es = refl
newcomers-step s (output p) es = refl
newcomers-step s tick es = refl
newcomers-step s (leave id) es = refl

pub run-clients :
    (s : Session) (es : List Event)
    → (run s es).clients ≡ survivors (follow es) s.clients ++ newcomers s es
unfolding run newcomers
run-clients s [] = sym (append-nil _ ∙ (unfold follow in survivors-some s.clients))
run-clients s (e ∷ es) =
    let rest = newcomers (step s e) es in
    let f = follow es in
    run-clients (step s e) es
    ∙ ap (λ l. survivors f l ++ rest) (clients-step s e)
    ∙ ap (λ l. l ++ rest) (survivors-append f (survivors (λ c. turn c e) s.clients) (joining s e))
    ∙ append_assoc _ (survivors f (joining s e)) rest
    ∙ ap₂ (λ l r. l ++ r) (survivors-follow e es s.clients) (sym (newcomers-step s e es))
