-- ===== src/Ssh/Helper.antt =====
-- internal/ssh/persist.go: the helper binary on the remote host and the commands that run it. SHA-256,
-- its hexadecimal form and JSON are parameters.
pub mod Quote
pub mod Deploy
use lazyssh.Base.{
  ℕ, Bool, true, false, ◌||◌, ◌&&◌, Option, none, some, List, [], ◌∷◌, ◌++◌, Bytes, codes, ◌==◌,
  bytes_eq, if◌then◌else◌,
}
use lazyssh.Base.Result.{Result, ok, err, ◌>>=◌}
use lazyssh.Strings.{trim_space, to_lower, has_prefix, contains, replace_all}
use lazyssh.Paths.{join_path}

abbrev pub lss_rel_path : Bytes
lss_rel_path = codes ".lazyssh/bin/lss"

abbrev pub lss_hash_file : Bytes
lss_hash_file = codes ".lazyssh/bin/lss.sha256"

pub data HelperError : Type 0 where
  command_failed : HelperError
  not_linux : Bytes → HelperError
  unsupported_arch : Bytes → HelperError
  not_made : HelperError
  not_opened : HelperError
  not_written : HelperError
  not_chmodded : HelperError
  not_parsed : HelperError

-- `RunCommand`: the output of a remote command, where it could be run and ended with status 0.
abbrev output : Option Bytes → Result HelperError Bytes
output none = err command_failed
output (some out) = ok out

unfoldable pub remote_home : (Bytes → Option Bytes) → Result HelperError Bytes
remote_home run = output (run (codes "echo $HOME")) >>= λ out. ok (trim_space out)

abbrev pub arch_of : Bytes → Result HelperError Bytes
arch_of out =
    let s = to_lower (trim_space out) in
    if has_prefix s (codes "linux")
    then (if contains s (codes "x86_64")
        then ok (codes "amd64")
        else if contains s (codes "aarch64") || contains s (codes "arm64")
        then ok (codes "arm64")
        else err (unsupported_arch (trim_space out)))
    else err (not_linux (trim_space out))

unfoldable pub detect_arch : (Bytes → Option Bytes) → Result HelperError Bytes
detect_arch run = output (run (codes "uname -sm")) >>= arch_of

-- The remote files, by their paths, and what the server refuses.
pub record Remote : Type 0 where
  pub files : Bytes → Option Bytes
  pub executable : Bytes → Bool
  pub can_mkdir : Bytes → Bool
  pub can_remove : Bytes → Bool
  pub can_open : Bytes → Bool
  pub can_write : Bytes → Bool
  pub can_chmod : Bytes → Bool

-- `hex.EncodeToString` of `sha256.Sum256`
abbrev pub Digest : Type 0
Digest = Bytes → Bytes

abbrev hash_matches : Digest → Bytes → Option Bytes → Bool
hash_matches digest expected none = false
hash_matches digest expected (some stored) = trim_space stored == digest expected

abbrev installed : Digest → Remote → Bytes → Bytes → Option Bytes → Bool
installed digest r home expected none = false
installed digest r home expected (some binary) =
    if expected == []
    then true
    else hash_matches digest expected (r.files (join_path (home ∷ lss_hash_file ∷ [])))

unfoldable pub helper_ready : Digest → Remote → Bytes → Bytes → Bool
helper_ready digest r home expected =
    installed digest r home expected (r.files (join_path (home ∷ lss_rel_path ∷ [])))

abbrev pub put : Remote → Bytes → Option Bytes → Remote
put r p c = record r { files = λ q. if p == q then c else r.files q }

-- `Remove`, whose error is ignored.
unfoldable pub unlink : Remote → Bytes → Remote
unlink r p = record r { files = λ q. if p == q && r.can_remove p then none else r.files q }

-- The hash file, where it can be opened. What is wrong with it is no error.
unfoldable pub write_hash : Digest → Remote → Bytes → Bytes → Remote
write_hash digest r home content =
    let p = join_path (home ∷ lss_hash_file ∷ []) in
    if r.can_open p then put r p (some (if r.can_write p then digest content else [])) else r

unfoldable pub make_executable : Remote → Bytes → Remote
make_executable r p = record r { executable = λ q. if p == q then true else r.executable q }

-- A write that fails leaves an empty file.
unfoldable pub upload_helper :
    Digest → Remote → Bytes → Bytes → Remote × Result HelperError (Unit {0})
upload_helper digest r home content =
    let dest = join_path (home ∷ lss_rel_path ∷ []) in
    let removed = unlink r dest in
    if r.can_mkdir (join_path (home ∷ codes ".lazyssh" ∷ codes "bin" ∷ []))
    then (if r.can_open dest
        then (if r.can_write dest
            then (let written = put removed dest (some content) in
                if r.can_chmod dest
                then (write_hash digest (make_executable written dest) home content, ok tt)
                else (written, err not_chmodded))
            else (put removed dest (some []), err not_written))
        else (removed, err not_opened))
    else (r, err not_made)

abbrev parsed : Option (List Bytes) → Result HelperError (List Bytes)
parsed none = err not_parsed
parsed (some names) = ok names

-- The names of the sessions that `lss list` prints.
unfoldable pub list_sessions :
    (Bytes → Option (List Bytes)) → (Bytes → Option Bytes) → Bytes → Result HelperError (List Bytes)
list_sessions unmarshal run home =
    output (run (join_path (home ∷ lss_rel_path ∷ []) ++ codes " list")) >>= λ out.
    parsed (unmarshal out)

abbrev pub quote : ℕ
quote = 39

-- A quote inside quotes: the quoting ends, a quote follows a backslash, and it begins again.
abbrev pub quoted_quote : Bytes
quoted_quote = quote ∷ 92 ∷ quote ∷ quote ∷ []

unfoldable pub shell_quote : Bytes → Bytes
shell_quote s = quote ∷ (replace_all s quote quoted_quote ++ quote ∷ [])

unfoldable pub new_session_cmd : Bytes → Bytes → Bytes
new_session_cmd home name =
    join_path (home ∷ lss_rel_path ∷ []) ++ (codes " new " ++ shell_quote name)

unfoldable pub attach_session_cmd : Bytes → Bytes → Bytes
attach_session_cmd home name =
    join_path (home ∷ lss_rel_path ∷ []) ++ (codes " attach " ++ shell_quote name)
