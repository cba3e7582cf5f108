-- ===== src/Ssh/Transfer/Counting.antt =====
-- `progressReader` of internal/ssh/sftp.go: what the callback is told while a file is copied.
use lazyssh.Base.{ℕ, ◌+◌, List, [], ◌∷◌, Bytes, ◌≡◌, length, ltb, if◌then◌else◌, arith}

-- The totals that are reported for the successive reads, each of which returns some bytes or none.
unfoldable pub reported : ℕ → List Bytes → List ℕ
reported total [] = []
reported total (read ∷ reads) =
    let now = total + length read in
    let rest = reported now reads in if ltb 0 (length read) then now ∷ rest else rest

abbrev sum_of : List Bytes → ℕ
sum_of [] = 0
sum_of (read ∷ reads) = length read + sum_of reads

abbrev last_or : ℕ → List ℕ → ℕ
last_or d [] = d
last_or d (n ∷ ns) = last_or n ns

-- The last total reported is the number of all bytes read.
pub reported_last :
    (total : ℕ) (reads : List Bytes) → last_or total (reported total reads) ≡ total + sum_of reads
unfolding reported
reported_last total [] = omega arith
reported_last total ([] ∷ reads) = ground (arith, reported_last (total + 0) reads)
reported_last total ((b ∷ bs) ∷ reads) =
    ground (arith, reported_last (total + length (b ∷ bs)) reads)
