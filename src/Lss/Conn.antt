-- ===== src/Lss/Conn.antt =====
-- A `net.Conn` as the helper uses it (cmd/lss): what was written to it, the bytes that the peer
-- still takes before a write fails (`none` when it never fails), the write deadline and `Close`.
use lazyssh.Base.{
  ℕ, ◌-◌, Bool, true, false, Option, none, some, ◌++◌, Bytes, leb, length, take, if◌then◌else◌,
}

pub record Conn : Type 0 where
  pub id : ℕ
  pub sent : Bytes
  pub room : Option ℕ
  pub deadline : Bool
  pub closed : Bool

-- The number of bytes that `room` lets through.
abbrev pub fits : Option ℕ → ℕ → Bool
fits none n = true
fits (some k) n = leb n k

abbrev pub spend : Option ℕ → ℕ → Option ℕ
spend none n = none
spend (some k) n = some (k - n)

abbrev pub passing : Option ℕ → Bytes → Bytes
passing none p = p
passing (some k) p = take k p

-- `Write`: everything or an error, where a failing write may have sent a part.
unfoldable pub write : Conn → Bytes → Conn × Bool
write c p =
    if c.closed
    then (c, false)
    else if fits c.room (length p)
    then (record c { sent = c.sent ++ p; room = spend c.room (length p) }, true)
    else (record c { sent = c.sent ++ passing c.room p; room = some 0 }, false)

abbrev pub set_deadline : Bool → Conn → Conn
set_deadline b c = record c { deadline = b }

abbrev pub close : Conn → Conn
close c = record c { closed = true }
