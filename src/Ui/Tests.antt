-- ===== src/Ui/Tests.antt =====
-- The theorems about internal/ui at concrete forms, hosts and answers.
use lazyssh.Base.{
  true, false, Option, none, some, List, [], ◌∷◌, ◌++◌, Bytes, codes, ◌≡◌, refl, replicate, ◌==◌,
  nat_eq, bytes_eq, bytes_beq, if◌then◌else◌, arith,
}
use lazyssh.Base.Int.{pos}
use lazyssh.Model.{Host}
use lazyssh.Model.Tests.{web}
use lazyssh.Strings.{trim_space, trim, trim_left, trim_right, split, contains, to_lower, has_prefix}
use lazyssh.Strings.Decimal.{read_digits}
use lazyssh.Config.Base64.{encode}
use lazyssh.Config.Tests.{marking}
use lazyssh.Config.Crypto.{encrypt}
use lazyssh.Ssh.Helper
use lazyssh.Ui.Form.{Fields, port_of, tags_of, atoi, accept_digits}
use lazyssh.Ui.Connecting.{Reply, auth_error, connect_sftp}
use lazyssh.Ui.Connecting.Tried.{tried-encrypt}
use lazyssh.Ui.Preparing.{Session}
use lazyssh.Ui.Hosts.{visible, host_matches_filter, delete_host}
use lazyssh.Paths.{join_path}
use lazyssh.Ui.Browser.{Listing, Local, Remote, open_local_row, local_target}
use lazyssh.Ui.Browser.Panels.{Synced, open_local_row-folder}

abbrev typed : Fields
typed = record {
  name = codes " db ";
  hostname = codes "db.local";
  port = codes "2200";
  user = codes "root";
  auth_type = codes "password";
  key_path = [];
  password = codes "pw";
  folder = [];
  tags = codes "a, ,b";
}

abbrev failing : Bytes → Bytes → Option Bytes
failing m p = none

typed_port : port_of (codes " 2200") ≡ pos 2200
unfolding port_of atoi trim_space trim trim_left trim_right read_digits
typed_port = refl

bad_port : port_of (codes "-5") ≡ pos 22
unfolding port_of atoi trim_space trim trim_left trim_right read_digits
bad_port = refl

typed_tags : tags_of (codes "a, ,b") ≡ codes "a" ∷ codes "b" ∷ []
unfolding tags_of split trim_space trim trim_left trim_right bytes_beq
typed_tags = refl

abbrev secret : Bytes → Host
secret v = record web { auth_type = codes "password"; password = v }

abbrev refusing : Bytes → Reply
refusing p = auth_error

-- `pw`, encrypted under `m` with a salt of ones and a nonce of twos.
abbrev sealed : Bytes
sealed = codes "enc:" ++ encode (replicate 16 1 ++ (replicate 12 2 ++ 17 ∷ codes "pw"))

tried-encrypt_example :
    (rest : List Bytes) × ((connect_sftp marking refusing
        (secret sealed)
        (some (codes "m") ∷ none ∷ [])
        []
        []
        false).tried
      ≡ codes "pw" ∷ rest)
unfolding encrypt bytes_beq
tried-encrypt_example =
    tried-encrypt marking refusing (secret sealed) (replicate 16 1) (replicate 12 2) (codes "m")
      (codes "pw") none [] refl refl (omega arith) (omega arith) (omega arith) refl refl refl

abbrev server : Helper.Remote
server = record {
  files = λ p. none;
  executable = λ p. false;
  can_mkdir = λ p. true;
  can_remove = λ p. true;
  can_open = λ p. true;
  can_write = λ p. true;
  can_chmod = λ p. true;
}

abbrev uname : Bytes → Option Bytes
uname c = if c == codes "uname -sm" then some (codes "Linux x86_64") else some (codes "/root")

abbrev declining : Session
declining = record {
  digest = λ b. b;
  helper = λ a. codes "bin";
  run = λ r c. uname c;
  unmarshal = λ b. none;
  accepts = false;
}

found_by_folder : visible (web ∷ []) (codes "PROD") ≡ web ∷ []
unfolding visible host_matches_filter contains to_lower has_prefix bytes_beq
found_by_folder = refl

deleted : delete_host (web ∷ []) (codes "01") ≡ []
unfolding delete_host bytes_beq
deleted = refl

a_digit : accept_digits b'7' ≡ true
unfolding accept_digits
a_digit = refl

abbrev one_file : Listing
one_file p =
    some (
      record { name = codes "f"; is_dir = false } ∷ record { name = codes "d"; is_dir = true } ∷ [])

abbrev panel : Remote
panel = record {
  remote_dir = codes "/r";
  remote_path_str = codes "/r";
  remote_files = [];
  loading = some (codes "/r");
}

panel-Synced : Synced one_file panel
panel-Synced = refl

abbrev local_panel : Local
local_panel = record {
  local_dir = codes "/l";
  local_path_str = codes "/l";
  local_files =
      record { name = codes "d"; is_dir = true } ∷ record { name = codes "f"; is_dir = false } ∷ [];
}

open_local_row-folder_example :
    let after = open_local_row (λ p. none) local_panel 1 in
    (after.local_path_str ≡ codes "/l")
    × (after.local_files ≡ local_panel.local_files)
    × (local_target after 2
        ≡ some (join_path (join_path (codes "/l" ∷ codes "d" ∷ []) ∷ codes "f" ∷ [])))
open_local_row-folder_example =
    open_local_row-folder (λ p. none) local_panel 0 1 (record { name = codes "d"; is_dir = true })
      (record { name = codes "f"; is_dir = false }) refl refl refl refl
