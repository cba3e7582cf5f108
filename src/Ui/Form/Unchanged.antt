-- ===== src/Ui/Form/Unchanged.antt =====
-- Opening a host in the form of internal/ui/hostform.go and saving it as it is.
use lazyssh.Base.{ℕ, suc, ◌≤◌, false, [], Bytes, ◌≡◌, bytes_beq, All, nat_eq, bytes_eq}
use lazyssh.Base.Int.{pos}
use lazyssh.Strings.{trim_space}
use lazyssh.Strings.Split.{Lacks}
use lazyssh.Strings.Decimal.{max_int}
use lazyssh.Model.{Host}

-- A tag as the form writes it.
pub record IsTag (t : Bytes) : Type 0 where
  pub trimmed : trim_space t ≡ t
  pub given : bytes_beq t [] ≡ false
  pub whole : Lacks b',' t

-- A host as the form writes it.
pub record IsTidy (h : Host) : Type 0 where
  pub name_trimmed : trim_space h.name ≡ h.name
  pub name_given : bytes_beq h.name [] ≡ false
  pub hostname_trimmed : trim_space h.hostname ≡ h.hostname
  pub hostname_given : bytes_beq h.hostname [] ≡ false
  pub user_trimmed : trim_space h.user ≡ h.user
  pub user_given : bytes_beq h.user [] ≡ false
  pub number : ℕ
  pub port_given : h.port ≡ pos (suc number)
  pub port_fits : suc number ≤ max_int
  pub auth_given : bytes_beq h.auth_type [] ≡ false
  pub key_path_trimmed : trim_space h.key_path ≡ h.key_path
  pub folder_trimmed : trim_space h.folder ≡ h.folder
  pub tags-IsTag : All IsTag h.tags
