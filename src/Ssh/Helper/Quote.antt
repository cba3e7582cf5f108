-- ===== src/Ssh/Helper/Quote.antt =====
-- The commands of internal/ssh/persist.go, as a shell reads them.
use lazyssh.Base.{
  ℕ, Bool, true, Option, none, some, List, [], ◌∷◌, ◌++◌, Bytes, codes, ◌==◌, nat_eq, nat_beq,
  bytes_eq, if◌then◌else◌, ◌≡◌, refl, ap, ◌∙◌, Bool-cases, inl, inr, arith, ◌||◌, append-nil, ◌&&◌,
  leb, nat_beq_iff,
}
use lazyssh.Strings.{replace_all}
use lazyssh.Paths.{join_path}
use lazyssh.Ssh.Helper.{
  quote, quoted_quote, shell_quote, new_session_cmd, attach_session_cmd, lss_rel_path,
}

-- The words of a command, as a POSIX shell reads those made of bytes that mean nothing to it,
-- blanks, single quotes and quotes after a backslash.
pub data Place : Type 0 where
  between : Place
  word : Place
  quoted : Place
  escaped : Place

abbrev onto : ℕ → Option (List Bytes) → Option (List Bytes)
onto c none = none
onto c (some []) = some ((c ∷ []) ∷ [])
onto c (some (w ∷ ws)) = some ((c ∷ w) ∷ ws)

abbrev new_word : Option (List Bytes) → Option (List Bytes)
new_word none = none
new_word (some ws) = some ([] ∷ ws)

abbrev next : Place → ℕ → Place
next between c =
    if c == 32 then between else if c == quote then quoted else if c == 92 then escaped else word
next word c =
    if c == 32 then between else if c == quote then quoted else if c == 92 then escaped else word
next quoted c = if c == quote then word else quoted
next escaped c = word

abbrev emit : Place → ℕ → Option (List Bytes) → Option (List Bytes)
emit between c rest =
    if c == 32 then rest else if c == quote then rest else if c == 92 then rest else onto c rest
emit word c rest =
    if c == 32
    then new_word rest
    else if c == quote
    then rest
    else if c == 92
    then rest
    else onto c rest
emit quoted c rest = if c == quote then rest else onto c rest
emit escaped c rest = onto c rest

abbrev at_end : Place → Option (List Bytes)
at_end between = some []
at_end word = some ([] ∷ [])
at_end quoted = none
at_end escaped = none

-- The rest of the word read, and the words after it.
unfoldable pub shell : Place → Bytes → Option (List Bytes)
shell p [] = at_end p
shell p (c ∷ s) = let rest = shell (next p c) s in emit p c rest

-- Letters, digits and the punctuation of paths that means nothing to a shell.
abbrev is_plain : ℕ → Bool
is_plain c = (leb 97 c && leb c 122) || (leb 65 c && leb c 90) || (leb 45 c && leb c 57) || c == 95

abbrev pub all_plain : Bytes → Bool
all_plain [] = true
all_plain (c ∷ s) = is_plain c && all_plain s

shell-plain :
    (s rest : Bytes) (w : Bytes) (ws : List Bytes)
    → all_plain s ≡ true
    → shell word rest ≡ some (w ∷ ws)
    → shell word (s ++ rest) ≡ some ((s ++ w) ∷ ws)
unfolding shell
shell-plain [] rest w ws h e = e
shell-plain (c ∷ s) rest w ws h e = ground (arith, shell-plain s rest w ws, e, h)

shell-quoted :
    (s rest : Bytes) (w : Bytes) (ws : List Bytes)
    → shell word rest ≡ some (w ∷ ws)
    → shell quoted (replace_all s quote quoted_quote ++ quote ∷ rest) ≡ some ((s ++ w) ∷ ws)
unfolding shell replace_all
shell-quoted [] rest w ws e = e
shell-quoted (c ∷ s) rest w ws e = elim (Bool-cases (nat_beq c quote)) [
  | inl t ↦ rw (t, (nat_beq_iff c quote).0 t) (rw (shell-quoted s rest w ws e) refl)
  | inr f ↦ rw (f) (rw (f, shell-quoted s rest w ws e) refl)
]

shell-shell_quote : (s : Bytes) → shell between (shell_quote s) ≡ some (s ∷ [])
unfolding shell shell_quote
shell-shell_quote s = shell-quoted s [] [] [] refl ∙ ap (λ t. some (t ∷ [])) (append-nil s)

shell-first :
    (c : ℕ) (p rest : Bytes) (ws : List Bytes)
    → all_plain (c ∷ p) ≡ true
    → shell between rest ≡ some ws
    → shell between ((c ∷ p) ++ 32 ∷ rest) ≡ some ((c ∷ p) ∷ ws)
shell-first c p rest ws h e =
    let space : shell word (32 ∷ rest) ≡ some ([] ∷ ws) = unfold shell in rw e refl in
    let more = λ (hp : all_plain p ≡ true). shell-plain p (32 ∷ rest) [] ws hp space in
    let read : shell word (p ++ 32 ∷ rest) ≡ some (p ∷ ws) =
      more (ground arith) ∙ ap (λ t. some (t ∷ ws)) (append-nil p) in
    unfold shell in ground (arith, read)

command :
    (home s : Bytes) (c : ℕ) (p : Bytes) (d : ℕ) (verb : Bytes)
    → join_path (home ∷ lss_rel_path ∷ []) ≡ c ∷ p
    → all_plain (c ∷ p) ≡ true
    → all_plain (d ∷ verb) ≡ true
    → shell between ((c ∷ p) ++ 32 ∷ ((d ∷ verb) ++ 32 ∷ shell_quote s))
      ≡ some ((c ∷ p) ∷ (d ∷ verb) ∷ s ∷ [])
command home s c p d verb e hp hv =
    shell-first c p ((d ∷ verb) ++ 32 ∷ shell_quote s) _ hp
      (shell-first d verb (shell_quote s) _ hv (shell-shell_quote s))

-- Where the helper's path is made of plain bytes, a shell reads the command for a new session and
-- the one for attaching as three words: that path, the verb and exactly the session's name, whatever
-- bytes, quotes and blanks the name is made of.
pub shell-session_cmd :
    (home name : Bytes) (c : ℕ) (p : Bytes)
    → join_path (home ∷ lss_rel_path ∷ []) ≡ c ∷ p
    → all_plain (c ∷ p) ≡ true
    → (shell between (new_session_cmd home name) ≡ some ((c ∷ p) ∷ codes "new" ∷ name ∷ []))
      × (shell between (attach_session_cmd home name) ≡ some ((c ∷ p) ∷ codes "attach" ∷ name ∷ []))
unfolding new_session_cmd attach_session_cmd
shell-session_cmd home name c p e h = rw e (
  command home name c p 110 (codes "ew") e h refl,
  command home name c p 97 (codes "ttach") e h refl,
)
