-- ===== src/Ssh/Tests.antt =====
-- The theorems about internal/ssh at concrete hosts, servers and trees.
use lazyssh.Base.{
  List, All, true, false, none, some, [], ◌∷◌, ◌++◌, Bytes, codes, ◌≡◌, ◌≢◌, inl, inr, refl, ◌==◌,
  nat_eq, bytes_eq, bytes_beq, if◌then◌else◌,
}
use lazyssh.Base.Result.{ok, err}
use lazyssh.Model.{addr, effective_port, user_host}
use lazyssh.Model.Tests.{web}
use lazyssh.Strings.{
  split, has_prefix, has_suffix, trim_suffix, trim_space, trim, trim_left, trim_right, contains,
  to_lower,
}
use lazyssh.Strings.Decimal.{itoa, digits}
use lazyssh.Ssh.Auth.{
  AuthEnv, public_keys, password_auth, keyboard_interactive, build_auth, explicit_key, agent_auth,
  default_keys, password_methods, is_auth_error,
}
use lazyssh.Ssh.KnownHosts.{
  Verdict, accepted, absent, changed, Library, missing, file, load_tolerant, append_known_host,
  scan_lines, too_long, valid_lines, keeps,
}
use lazyssh.Ssh.Connect.{Network, Surroundings, not_connected, connect, strict_callback}
use lazyssh.Ssh.Connect.Trust.{Verified, methods, connect-Verified, connect_changed}
use lazyssh.Ssh.Connect.Ends.{Ends, connect-Ends}
use lazyssh.Ssh.Terminal.{ssh_args}
use lazyssh.Ssh.Transfer.{leaf, folder, Entries, done, entry}
use lazyssh.Ssh.Transfer.Removal.{Refusals, Refused, RefusedBelow}
use lazyssh.Ssh.Transfer.Download.{
  Faults, Progress, download_dir, download_entries, download_entry, download_file,
}
use lazyssh.Ssh.Helper.{Remote, Digest, upload_helper, helper_ready, detect_arch}
use lazyssh.Ssh.Helper.Deploy.{binary, helper_ready-upload_helper}
use mathlib.Core.List.{Perm}
use lazyssh.Ssh.Transfer.Listing.{FileInfo, list_dir}
use lazyssh.Ssh.Transfer.Listing.Sorted.{IsSorted, list_dir_lem}
use lazyssh.Ssh.Transfer.Upload.{uploads, uploads_below}

abbrev auth : AuthEnv
auth = record {
  home = codes "/root";
  auth_sock = codes "/run/agent";
  agent_answers = true;
  agent_signers = some (codes "k1" ∷ []);
  read_file = λ p. none;
  parse_key = λ c. none;
}

agent_then_password : build_auth auth web (codes "pw") ≡ (
  true,
  ok (
      public_keys (codes "k1" ∷ [])
      ∷ password_auth (codes "pw")
      ∷ keyboard_interactive (codes "pw")
      ∷ []),
)
unfolding build_auth agent_auth explicit_key default_keys password_methods bytes_beq
agent_then_password = refl

abbrev verdict : Bytes → Verdict
verdict [] = absent
verdict (c ∷ s) = if c == b'!' then changed else accepted

abbrev lib : Library
lib = record {
  line_parses = λ l. true;
  builds = λ s. true;
  verify = λ db a k. verdict db;
  line = λ a k. a ++ (32 ∷ k);
  fingerprint = λ k. k;
}

abbrev net : Network
net = record {
  dial =
      λ n a ms accept. record { presented = some (codes "key"); connected = accept (codes "key") };
  sftp_starts = true;
  dial-checked = λ n a ms accept e. (codes "key", refl, e);
}

abbrev around : Surroundings
around = record {
  auth = auth;
  lib = lib;
  net = net;
  temp = true;
  can_write = true;
  ask = some (λ a f. true);
}

connect-Verified_example :
    Verified around missing
      (addr web)
      (methods (build_auth auth web (codes "pw")))
      (connect around missing web (codes "pw")).0.known_hosts
unfolding connect build_auth agent_auth explicit_key default_keys password_methods bytes_beq
    strict_callback load_tolerant append_known_host too_long scan_lines split trim_suffix has_suffix
    valid_lines keeps trim_space trim trim_left trim_right has_prefix addr effective_port itoa
    digits
connect-Verified_example = connect-Verified around missing web (codes "pw") refl

connect_changed_example :
    let (after, error) = connect around (file (codes "!")) web (codes "pw") in
    (error ≡ err not_connected) × (after.known_hosts ≡ file (codes "!"))
unfolding build_auth agent_auth explicit_key default_keys password_methods bytes_beq load_tolerant
    too_long scan_lines split trim_suffix has_suffix valid_lines keeps trim_space trim trim_left
    trim_right has_prefix
connect_changed_example =
    connect_changed around (file (codes "!")) web (codes "pw") true
      (public_keys (codes "k1" ∷ [])
        ∷ password_auth (codes "pw")
        ∷ keyboard_interactive (codes "pw")
        ∷ [])
      (b'!' ∷ 10 ∷ []) (codes "key") refl refl refl refl

connect-Ends_example :
    Ends (build_auth auth web (codes "pw")).0 (connect around (file (codes "!")) web (codes "pw"))
connect-Ends_example = connect-Ends around (file (codes "!")) web (codes "pw")

abbrev tree : Entries
tree =
    entry (codes "a") (leaf (codes "1"))
      (entry (codes "d") (folder (entry (codes "b") (leaf (codes "2")) done)) done)

abbrev willing : Refusals
willing = record { kept = λ p. false; unlisted = λ p. false }

not-Refused : ¬ Refused willing (codes "/t") (folder (entry (codes "a") (leaf []) done))
unfolding Refused RefusedBelow
not-Refused (inl h) = cc
not-Refused (inr (inl h)) = cc
not-Refused (inr (inr (inl h))) = cc
not-Refused (inr (inr (inr h))) = cc

abbrev clear : Faults
clear = record {
  cancelled = λ k. false;
  unlisted = λ p. false;
  unreadable = λ p. false;
  no_mkdir = λ p. false;
  no_create = λ p. false;
  breaks = λ p. none;
}

abbrev start : Progress
start = record { checks = 0; made = []; written = []; shown = [] }

abbrev bare : Remote
bare = record {
  files = λ p. none;
  executable = λ p. false;
  can_mkdir = λ p. true;
  can_remove = λ p. true;
  can_open = λ p. true;
  can_write = λ p. true;
  can_chmod = λ p. true;
}

abbrev digest : Digest
digest = λ bs. bs

a_helper : ◌≢◌ {A = Bytes} (codes "v2") []
a_helper e = cc

helper_ready-upload_helper_example :
    let (after, error) = upload_helper digest bare (codes "/root") (codes "v1") in
    (error ≡ ok tt)
    × (after.files (binary (codes "/root")) ≡ some (codes "v1"))
    × (after.executable (binary (codes "/root")) ≡ true)
    × (helper_ready digest after (codes "/root") (codes "v2") ≡ bytes_beq (codes "v1") (codes "v2"))
unfolding trim_space trim trim_left trim_right
helper_ready-upload_helper_example =
    helper_ready-upload_helper digest bare (codes "/root") (codes "v1") (codes "v2")
      (λ p. (refl, refl, refl, refl)) refl a_helper

terminal_args :
    ssh_args web (codes "ls")
    ≡ codes "-p" ∷ codes "2222" ∷ codes "-t" ∷ codes "root@10.0.0.1" ∷ codes "ls" ∷ []
unfolding ssh_args effective_port user_host itoa digits bytes_beq
terminal_args = refl

linux_arm : detect_arch (λ c. some (codes "Linux aarch64")) ≡ ok (codes "arm64")
unfolding detect_arch to_lower trim_space trim trim_left trim_right has_prefix contains bytes_beq
linux_arm = refl

no_method_left : is_auth_error (some (codes "ssh: no auth method")) ≡ true
unfolding is_auth_error contains has_prefix bytes_beq
no_method_left = refl

abbrev entries : List FileInfo
entries =
    record { name = codes "b"; is_dir = false; size = 1 }
    ∷ record { name = codes "z"; is_dir = true; size = 0 }
    ∷ record { name = codes "a"; is_dir = false; size = 2 }
    ∷ []

list_dir_lem_example :
    (dirs : List FileInfo) × (files : List FileInfo) × (list_dir (some entries)
      ≡ some (dirs ++ files))
    × All (λ (f : FileInfo). f.is_dir ≡ true) dirs
    × All (λ (f : FileInfo). f.is_dir ≡ false) files
    × IsSorted dirs
    × IsSorted files
    × Perm (dirs ++ files) entries
list_dir_lem_example = list_dir_lem entries

uploaded :
    uploads (codes "/t") (codes ".") (folder tree)
    ≡ (codes "/t/a", codes "1") ∷ (codes "/t/d/b", codes "2") ∷ []
unfolding uploads uploads_below bytes_beq
uploaded = refl

no_error : (download_dir clear (codes "/t") (codes "/l") tree start).1 ≡ none
unfolding download_dir download_entries download_entry download_file
no_error = refl
