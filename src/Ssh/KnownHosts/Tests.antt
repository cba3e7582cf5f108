-- ===== src/Ssh/KnownHosts/Tests.antt =====
-- The known hosts file of internal/ssh/sftp.go at concrete contents.
use lazyssh.Base.{
  true, some, inr, [], ◌∷◌, ◌++◌, codes, ◌≡◌, refl, arith, nat_eq, bytes_eq, bytes_beq,
}
use lazyssh.Strings.{has_suffix, has_prefix, trim_space, trim, trim_left, trim_right}
use lazyssh.Ssh.KnownHosts.{
  Library, accepted, Node, file, content, scan_lines, valid_lines, keeps, append_known_host,
}
use lazyssh.Ssh.KnownHosts.Appended.{valid_lines-append_known_host}

-- A line is the host, a blank and the key.
abbrev library : Library
library = record {
  line_parses = λ l. true;
  builds = λ s. true;
  verify = λ s h k. accepted;
  line = λ h k. h ++ 32 ∷ k;
  fingerprint = λ k. k;
}

abbrev whole : Node
whole = file (codes "a k" ++ 10 ∷ [])

valid_lines-append_known_host_example :
    valid_lines library (scan_lines (codes "a k" ++ 10 ∷ (codes "b k" ++ 10 ∷ [])))
    ≡ valid_lines library (scan_lines (content whole)) ++ (codes "b k" ++ 10 ∷ [])
unfolding append_known_host has_suffix keeps trim_space trim trim_left trim_right has_prefix
    bytes_beq
valid_lines-append_known_host_example =
    valid_lines-append_known_host library whole
      (file (codes "a k" ++ 10 ∷ (codes "b k" ++ 10 ∷ []))) (codes "b") (codes "k") refl
      (inr (codes "a k", refl))
      (λ e. ground (arith, e), (λ e. ground (arith, e), (λ e. ground (arith, e), tt))) refl refl

-- Behind a line without its newline, the new host is glued to that line.
glued :
    append_known_host library true (file (codes "a k")) (codes "b") (codes "k")
    ≡ some (file (codes "a kb k" ++ 10 ∷ []))
unfolding append_known_host
glued = refl
