-- ===== src/Ssh/KnownHosts/Appended.antt =====
-- What `loadTolerantKnownHosts` of internal/ssh/sftp.go reads after `appendKnownHost`.
use lazyssh.Base.{
  ℕ, true, false, some, List, [], ◌∷◌, ◌++◌, Bytes, ◌≡◌, ◌≢◌, refl, sym, ap, ap₂, ◌∙◌, ◌⊎◌,
  bytes_beq, append_assoc, append-nil, nat_eq, bytes_eq, inl, inr, if◌then◌else◌, arith,
}
use lazyssh.Strings.{split, onto_head, has_suffix, trim_suffix}
use lazyssh.Strings.Split.{Lacks, split_whole, split-ne-nil}
use lazyssh.Ssh.KnownHosts.{
  Library, Node, content, scan_lines, without_last, strip_returns, valid_lines, keeps,
  append_known_host,
}

onto_head-append : (c : ℕ) (l m : List Bytes) → l ≢ [] → onto_head c (l ++ m) ≡ onto_head c l ++ m
onto_head-append c [] m h = absurd (h refl)
onto_head-append c (p ∷ l) m h = refl

split_at : (s t : Bytes) (sep : ℕ) → split (s ++ sep ∷ t) sep ≡ split s sep ++ split t sep
unfolding split
split_at [] t sep = ground arith
split_at (c ∷ s) t sep =
    ground
      (arith, split_at s t sep, onto_head-append c (split s sep) (split t sep) (split-ne-nil s sep))

without_last-append : (l : List Bytes) → without_last (l ++ [] ∷ []) ≡ l
unfolding bytes_beq
without_last-append [] = refl
without_last-append (x ∷ []) = refl
without_last-append (x ∷ y ∷ l) = ap (λ m. x ∷ m) (without_last-append (y ∷ l))

strip_returns-append :
    (l m : List Bytes) → strip_returns (l ++ m) ≡ strip_returns l ++ strip_returns m
strip_returns-append [] m = refl
strip_returns-append (x ∷ l) m = ap (λ k. trim_suffix x (13 ∷ []) ∷ k) (strip_returns-append l m)

-- The lines of a text that ends with a newline.
scan_lines-ended : (s : Bytes) → scan_lines (s ++ 10 ∷ []) ≡ strip_returns (split s 10)
unfolding scan_lines split
scan_lines-ended s =
    ap (λ l. strip_returns (without_last l)) (split_at s [] 10)
    ∙ ap (λ l. strip_returns l) (without_last-append (split s 10))

valid_lines-append :
    (lib : Library) (l m : List Bytes)
    → valid_lines lib (l ++ m) ≡ valid_lines lib l ++ valid_lines lib m
unfolding valid_lines
valid_lines-append lib [] m = refl
valid_lines-append lib (x ∷ l) m =
    let one = if keeps lib x then x ++ 10 ∷ [] else [] in
    ap (λ k. one ++ k) (valid_lines-append lib l m)
    ∙ sym (append_assoc one (valid_lines lib l) (valid_lines lib m))

one_line :
    (lib : Library) (line : Bytes)
    → keeps lib line ≡ true
    → valid_lines lib (line ∷ []) ≡ line ++ 10 ∷ []
unfolding valid_lines
one_line lib line h = rw h (append-nil (line ++ 10 ∷ []))

scan_lines-nil : scan_lines [] ≡ []
unfolding scan_lines split bytes_beq
scan_lines-nil = refl

regroup : (s line : Bytes) → (s ++ 10 ∷ []) ++ (line ++ 10 ∷ []) ≡ (s ++ 10 ∷ line) ++ 10 ∷ []
regroup s line =
    append_assoc s (10 ∷ []) (line ++ 10 ∷ []) ∙ sym (append_assoc s (10 ∷ line) (10 ∷ []))

-- A text of whole lines.
abbrev pub IsEnded : Bytes → Type 0
IsEnded c = (c ≡ []) ⊎ ((s : Bytes) × (c ≡ s ++ 10 ∷ []))

module _ (line : Bytes) (one : Lacks 10 line) (no_return : has_suffix line (13 ∷ []) ≡ false) where
  line_alone : strip_returns (split line 10) ≡ line ∷ []
  unfolding trim_suffix
  line_alone = ap (λ l. strip_returns l) (split_whole line 10 one) ∙ rw no_return refl

  scan_lines-last :
      (c : Bytes) → IsEnded c → scan_lines (c ++ (line ++ 10 ∷ [])) ≡ scan_lines c ++ line ∷ []
  scan_lines-last c (inl e) =
      rw e (scan_lines-ended line ∙ line_alone ∙ ap (λ l. l ++ line ∷ []) (sym scan_lines-nil))
  scan_lines-last c (inr (s, e)) = rw e (
      ap (λ t. scan_lines t) (regroup s line)
      ∙ scan_lines-ended (s ++ 10 ∷ line)
      ∙ ap (λ l. strip_returns l) (split_at s line 10)
      ∙ strip_returns-append (split s 10) (split line 10)
      ∙ ap₂ (λ l m. l ++ m) (sym (scan_lines-ended s)) line_alone)

-- Where the file is empty or ends with a newline, and the line for the host is one line that the
-- library parses: after the key was appended, a load keeps the lines that it kept before, and that
-- line behind them.
pub valid_lines-append_known_host :
    (lib : Library) (n after : Node) (host key : Bytes)
    → append_known_host lib true n host key ≡ some after
    → IsEnded (content n)
    → Lacks 10 (lib.line host key)
    → has_suffix (lib.line host key) (13 ∷ []) ≡ false
    → keeps lib (lib.line host key) ≡ true
    → valid_lines lib (scan_lines (content after))
      ≡ valid_lines lib (scan_lines (content n)) ++ (lib.line host key ++ 10 ∷ [])
unfolding append_known_host
valid_lines-append_known_host lib n after host key e ended one no_return kept =
    let line = lib.line host key in
    let there : content after ≡ content n ++ (line ++ 10 ∷ []) = ground (arith, e) in
    ap (λ c. valid_lines lib (scan_lines c)) there
    ∙ ap (λ l. valid_lines lib l) (scan_lines-last line one no_return (content n) ended)
    ∙ valid_lines-append lib (scan_lines (content n)) (line ∷ [])
    ∙ ap (λ l. valid_lines lib (scan_lines (content n)) ++ l) (one_line lib line kept)
