-- ===== src/Lss/Session/Scrollback.antt =====
-- The scrollback buffer of cmd/lss/daemon.go against all that the terminal has printed.
use lazyssh.Base.{
  ℕ, ◌+◌, ◌-◌, ◌≡◌, refl, sym, ap, ◌∙◌, List, [], ◌∷◌, ◌++◌, Bytes, ltb, length, drop, tests,
  length-append, length-drop, drop-append_of_le, drop-drop, append_assoc, append-nil, Bool-cases,
  inl, inr, arith,
}
use lazyssh.Lss.Conn.{Conn}
use lazyssh.Lss.Session.{
  Session, Event, output, tick, join, leave, max_scrollback, write_scrollback, feed, ping, add,
  remove, step, run,
}

-- The last `n` bytes.
abbrev pub last : ℕ → Bytes → Bytes
last n bs = drop (length bs - n) bs

-- All that the events print.
abbrev pub printed : List Event → Bytes
printed [] = []
printed (output p ∷ es) = p ++ printed es
printed (tick ∷ es) = printed es
printed (join c ∷ es) = printed es
printed (leave id ∷ es) = printed es

pub printed-cons : (e : Event) (es : List Event) → printed (e ∷ es) ≡ printed (e ∷ []) ++ printed es
printed-cons (output p) es = rw append-nil
printed-cons tick es = refl
printed-cons (join c) es = refl
printed-cons (leave id) es = refl

write_scrollback-last :
    (buffered p : Bytes) → write_scrollback buffered p ≡ last max_scrollback (buffered ++ p)
unfolding write_scrollback
write_scrollback-last buffered p = elim (Bool-cases (ltb max_scrollback (length (buffered ++ p)))) [
  | inl over ↦ rw over
  | inr within ↦ rw within (ap (λ k. drop k (buffered ++ p)) {x = 0} (omega tests))
]

-- Cutting early loses nothing that a later cut would keep.
last-last : (n : ℕ) (bs p : Bytes) → last n (last n bs ++ p) ≡ last n (bs ++ p)
last-last n bs p =
    let d = length bs - n in
    let xs = bs ++ p in
    let size : length (drop d xs) ≡ length xs - d = length-drop d xs in
    rw (← drop-append_of_le d bs p (omega arith)) (
      drop-drop (length (drop d xs) - n) d xs
      ∙ ap (λ k. drop k xs) {x = d + (length (drop d xs) - n)} {y = length xs - n}
          (omega (arith, size, length-append bs p)))

feed-scrollback :
    (s : Session) (past p : Bytes)
    → s.scrollback ≡ last max_scrollback past
    → (feed s p).scrollback ≡ last max_scrollback (past ++ p)
unfolding feed
feed-scrollback s past p h =
    write_scrollback-last s.scrollback p
    ∙ ap (λ b. last max_scrollback (b ++ p)) h
    ∙ last-last max_scrollback past p

add-scrollback : (s : Session) (c : Conn) → (add s c).0.scrollback ≡ s.scrollback
unfolding add
add-scrollback s c = ground arith

pub step-scrollback :
    (s : Session) (past : Bytes) (e : Event)
    → s.scrollback ≡ last max_scrollback past
    → (step s e).scrollback ≡ last max_scrollback (past ++ printed (e ∷ []))
unfolding step ping remove
step-scrollback s past (output []) h = rw append-nil h
step-scrollback s past (output (b ∷ p)) h =
    rw append-nil (ground (arith, feed-scrollback s past (b ∷ p) h))
step-scrollback s past tick h = rw append-nil h
step-scrollback s past (join c) h = rw append-nil (add-scrollback s c ∙ h)
step-scrollback s past (leave id) h = rw append-nil h

-- From any point, the buffer holds the last 256 KB of what was printed before and since.
pub run-scrollback :
    (s : Session) (past : Bytes) (es : List Event)
    → s.scrollback ≡ last max_scrollback past
    → (run s es).scrollback ≡ last max_scrollback (past ++ printed es)
unfolding run
run-scrollback s past [] h = rw append-nil h
run-scrollback s past (e ∷ es) h =
    let rest : past ++ printed (e ∷ es) ≡ (past ++ printed (e ∷ [])) ++ printed es =
      ap (λ b. past ++ b) (printed-cons e es)
      ∙ sym (append_assoc past (printed (e ∷ [])) (printed es)) in
    rw rest (run-scrollback (step s e) (past ++ printed (e ∷ [])) es (step-scrollback s past e h))
