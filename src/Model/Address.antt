-- ===== src/Model/Address.antt =====
-- `Addr` of internal/model/host.go and the port.
use lazyssh.Base.{
  ℕ, suc, ◌<◌, true, none, some, [], ◌∷◌, ◌++◌, Bytes, ◌≡◌, ◌≢◌, refl, ap, ◌∙◌, length, take, drop,
  take-length-append, arith, nat_eq,
}
use lazyssh.Strings.{last_index}
use lazyssh.Strings.Split.{Lacks}
use lazyssh.Strings.Decimal.{itoa, IsDigits, itoa-IsDigits, read_digits, read_digits-itoa, is_digit}
use lazyssh.Model.{Host, effective_port, addr}

pub last_index_lacking : (s : Bytes) (c : ℕ) → Lacks c s → last_index s c ≡ none
unfolding last_index
last_index_lacking [] c h = refl
last_index_lacking (b ∷ s) c (hb, h) = ground (arith, last_index_lacking s c h)

pub last_index_at : (p s : Bytes) (c : ℕ) → Lacks c s → last_index (p ++ c ∷ s) c ≡ some (length p)
unfolding last_index
last_index_at [] s c h = ground (arith, last_index_lacking s c h)
last_index_at (b ∷ p) s c h = rw (last_index_at p s c h, last_index)

drop_behind : (p : Bytes) (c : ℕ) (s : Bytes) → drop (suc (length p)) (p ++ c ∷ s) ≡ s
drop_behind [] c s = refl
drop_behind (b ∷ p) c s = drop_behind p c s

digit-ne-colon : (c : ℕ) → is_digit c ≡ true → c ≢ b':'
digit-ne-colon c h = ground arith

digits-Lacks : (s : Bytes) → IsDigits s → Lacks b':' s
unfolding IsDigits
digits-Lacks [] h = tt
digits-Lacks (c ∷ s) (hc, h) = (digit-ne-colon c hc, digits-Lacks s h)

effective_port_pos : (h : Host) → 0 < effective_port h
unfolding effective_port
effective_port_pos h = ground arith

-- Cutting an address at its last colon gives the host's name and, in decimal, the effective port,
-- which is positive.
pub addr_parts :
    (h : Host)
    → (last_index (addr h) b':' ≡ some (length h.hostname))
      × (take (length h.hostname) (addr h) ≡ h.hostname)
      × (read_digits 0 (drop (suc (length h.hostname)) (addr h)) ≡ some (effective_port h))
      × (0 < effective_port h)
unfolding addr
addr_parts h =
    let n = effective_port h in
    let plain = digits-Lacks (itoa n) (itoa-IsDigits n) in
    (
      last_index_at h.hostname (itoa n) b':' plain,
      take-length-append h.hostname (b':' ∷ itoa n),
      ap (read_digits 0) (drop_behind h.hostname b':' (itoa n)) ∙ read_digits-itoa n,
      effective_port_pos h,
    )
