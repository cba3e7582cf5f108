-- ===== src/Lss/Session/Watchers.antt =====
-- What the attached clients of cmd/lss/daemon.go have been sent, in a session with many clients.
use lazyssh.Base.{
  ◌+◌, Option, none, some, List, [], ◌∷◌, ◌++◌, Bytes, ◌≡◌, refl, sym, subst, ap, arith, ◌∙◌, All,
  All-append, Option-cases, inl, inr, append_assoc, append-nil,
}
use lazyssh.Lss.Conn.{Conn}
use lazyssh.Lss.Frame.{eof}
use lazyssh.Lss.Client.{receive, lost}
use lazyssh.Lss.Session.{Session, Event, output, tick, join, leave, max_scrollback, init, step, run}
use lazyssh.Lss.Session.Follow.{
  follow, survivors, entry, joining, admit, newcomers, newcomers-step, run-clients,
}
use lazyssh.Lss.Session.Scrollback.{last, printed, printed-cons, step-scrollback}
use lazyssh.Lss.Session.Mirror.{IsChunk, count_frames, receive-mirror}

-- Nothing was sent to a connection that joins.
abbrev pub IsFresh : Event → Type 0
IsFresh (output p) = Unit {0}
IsFresh tick = Unit {0}
IsFresh (join c) = c.sent ≡ []
IsFresh (leave id) = Unit {0}

-- The client joined at some point of the events, and what was sent to it makes the client's loop print
-- the last 256 KB of what was printed before that point, and then all that was printed since.
pub record Mirrors (past : Bytes) (es : List Event) (d : Conn) : Type 0 where
  pub before : List Event
  pub after : List Event
  pub joined : Conn
  pub cut : es ≡ before ++ join joined ∷ after
  pub prints :
      receive (count_frames after + 2) d.sent
      ≡ (last max_scrollback (past ++ printed before) ++ printed after, some (lost eof))

Mirrors-later :
    (past : Bytes) (e : Event) (es : List Event) (d : Conn)
    → Mirrors (past ++ printed (e ∷ [])) es d
    → Mirrors past (e ∷ es) d
Mirrors-later past e es d m = record {
  before = e ∷ m.before;
  after = m.after;
  joined = m.joined;
  cut = ap (λ l. e ∷ l) m.cut;
  prints =
      m.prints
      ∙ ap (λ b. (last max_scrollback b ++ printed m.after, some (lost eof)))
          (append_assoc past (printed (e ∷ [])) (printed m.before)
            ∙ ap (λ b. past ++ b) (sym (printed-cons e m.before)));
}

All-later :
    (past : Bytes) (e : Event) (es : List Event) (ds : List Conn)
    → All (Mirrors (past ++ printed (e ∷ [])) es) ds
    → All (Mirrors past (e ∷ es)) ds
All-later past e es [] h = tt
All-later past e es (d ∷ ds) (m, h) = (Mirrors-later past e es d m, All-later past e es ds h)

-- A client that joins first.
Mirrors-now :
    (s : Session) (past : Bytes) (c c' d : Conn) (es : List Event)
    → s.scrollback ≡ last max_scrollback past
    → c.sent ≡ []
    → All IsChunk es
    → admit s c ≡ some c'
    → follow es c' ≡ some d
    → Mirrors past (join c ∷ es) d
Mirrors-now s past c c' d es buffered fresh chunks came stays = record {
  before = [];
  after = es;
  joined = c;
  cut = refl;
  prints =
      receive-mirror s past c c' d es buffered fresh chunks came stays
      ∙ ap (λ b. (last max_scrollback b ++ printed es, some (lost eof))) (sym (append-nil past));
}

survivors_one : (f : Conn → Option Conn) (c : Conn) → survivors f (c ∷ []) ≡ entry (f c)
unfolding survivors
survivors_one f c = ground arith

one_survivor :
    (f : Conn → Option Conn) (c : Conn) (P : Conn → Type 0)
    → ((d : Conn) → f c ≡ some d → P d)
    → All P (survivors f (c ∷ []))
one_survivor f c P h = subst (λ l. All P l) (sym (survivors_one f c)) (entry_all (f c) h)
  where
    entry_all : (o : Option Conn) → ((d : Conn) → o ≡ some d → P d) → All P (entry o)
    entry_all none k = tt
    entry_all (some d) k = (k d refl, tt)

no_survivor : (f : Conn → Option Conn) (P : Conn → Type 0) → All P (survivors f [])
unfolding survivors
no_survivor f P = tt

joined-Mirrors :
    (s : Session) (past : Bytes) (c : Conn) (es : List Event)
    → s.scrollback ≡ last max_scrollback past
    → c.sent ≡ []
    → All IsChunk es
    → All (Mirrors past (join c ∷ es)) (survivors (follow es) (entry (admit s c)))
joined-Mirrors s past c es buffered fresh chunks = elim (Option-cases (admit s c)) [
  | inl out ↦ rw out (no_survivor (follow es) (Mirrors past (join c ∷ es)))
  | inr (c', came) ↦ rw came (
      one_survivor (follow es) c' (Mirrors past (join c ∷ es))
        (λ d stays. Mirrors-now s past c c' d es buffered fresh chunks came stays))
]

joining-Mirrors :
    (s : Session) (past : Bytes) (e : Event) (es : List Event)
    → s.scrollback ≡ last max_scrollback past
    → IsFresh e
    → All IsChunk es
    → All (Mirrors past (e ∷ es)) (survivors (follow es) (joining s e))
joining-Mirrors s past (join c) es buffered fresh chunks =
    joined-Mirrors s past c es buffered fresh chunks
joining-Mirrors s past (output p) es buffered fresh chunks =
    no_survivor (follow es) (Mirrors past (output p ∷ es))
joining-Mirrors s past tick es buffered fresh chunks =
    no_survivor (follow es) (Mirrors past (tick ∷ es))
joining-Mirrors s past (leave id) es buffered fresh chunks =
    no_survivor (follow es) (Mirrors past (leave id ∷ es))

newcomers-Mirrors :
    (s : Session) (past : Bytes) (es : List Event)
    → s.scrollback ≡ last max_scrollback past
    → All IsFresh es
    → All IsChunk es
    → All (Mirrors past es) (newcomers s es)
unfolding newcomers
newcomers-Mirrors s past [] buffered fresh chunks = tt
newcomers-Mirrors s past (e ∷ es) buffered (fr, fresh) (ch, chunks) =
    subst (λ l. All (Mirrors past (e ∷ es)) l) (sym (newcomers-step s e es))
      (All-append (Mirrors past (e ∷ es)) (survivors (follow es) (joining s e))
        (newcomers (step s e) es) (joining-Mirrors s past e es buffered fr chunks)
        (All-later past e es (newcomers (step s e) es) (
          newcomers-Mirrors (step s e) (past ++ printed (e ∷ [])) es
            (step-scrollback s past e buffered) fresh chunks)))

-- At every moment of a session's life, every attached client has been sent what makes its loop print
-- exactly the last 256 KB of what the terminal printed before it joined, and then all that was
-- printed since, whatever other clients came, left or failed, if the terminal is read in chunks of
-- at most 4096 bytes and nothing was sent to a connection before it joins.
pub run-Mirrors :
    (es : List Event) → All IsFresh es → All IsChunk es → All (Mirrors [] es) (run init es).clients
run-Mirrors es fresh chunks =
    subst (λ l. All (Mirrors [] es) l) (sym (run-clients init es))
      (All-append (Mirrors [] es) (survivors (follow es) []) (newcomers init es)
        (no_survivor (follow es) (Mirrors [] es)) (newcomers-Mirrors init [] es refl fresh chunks))
