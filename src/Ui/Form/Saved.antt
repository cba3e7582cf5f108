-- ===== src/Ui/Form/Saved.antt =====
-- The store after `save` of internal/ui/hostform.go, on each of its branches.
use lazyssh.Base.{
  ℕ, true, false, Option, none, some, List, [], Bytes, set, get_elem?, ◌≡◌, refl, bytes_beq, arith,
  ◌≢◌, ◌⊎◌,
}
use lazyssh.Base.Result.{Result, ok, err}
use lazyssh.Strings.{trim_space}
use lazyssh.Model.{Host}
use lazyssh.Ui.Form.{Fields, Refusal, fill, new_password, with_password, save}

-- The required fields are there.
pub record Filled (f : Fields) : Type 0 where
  pub name_given : bytes_beq (trim_space f.name) [] ≡ false
  pub hostname_given : bytes_beq (trim_space f.hostname) [] ≡ false
  pub user_given : bytes_beq (trim_space f.user) [] ≡ false

abbrev pub stored : Host → Result Refusal Bytes → Host
stored h (ok p) = record h { password = p }
stored h (err e) = h

abbrev pub refusal : Result Refusal Bytes → Option Refusal
refusal (ok p) = none
refusal (err e) = some e

with_password-stored :
    (hosts : List Host) (i : ℕ) (h : Host) (r : Result Refusal Bytes)
    → with_password hosts i h r ≡ (set hosts i (stored h r), refusal r)
with_password-stored hosts i h (ok p) = refl
with_password-stored hosts i h (err e) = refl

module _ (encrypt : Bytes → Bytes → Option Bytes) (master : Bytes) where
  -- Editing with the required fields given replaces the host at its position by one with the fields,
  -- its old id and the new password, and no other. Where the password cannot be encrypted, the call
  -- is refused, but the host in memory has the other fields all the same.
  pub save-set :
      (i : ℕ) (id : Bytes) (f : Fields) (hosts : List Host) (h : Host)
      → Filled f
      → get_elem? hosts i ≡ some h
      → let r = new_password encrypt master f h in
        save encrypt master (some i) id f hosts ≡ (set hosts i (stored (fill f h) r), refusal r)
  unfolding save
  save-set i id f hosts h filled there =
      rw (filled.name_given, filled.hostname_given, filled.user_given, there)
        (with_password-stored hosts i (fill f h) (new_password encrypt master f h))

  -- Where a required field is missing, the call is refused and no host changes.
  pub save_refused :
      (target : Option ℕ) (id : Bytes) (f : Fields) (hosts : List Host)
      → (bytes_beq (trim_space f.name) [] ≡ true)
        ⊎ ((bytes_beq (trim_space f.hostname) [] ≡ true)
            ⊎ (bytes_beq (trim_space f.user) [] ≡ true))
      → ((save encrypt master target id f hosts).0 ≡ hosts)
        × ((save encrypt master target id f hosts).1 ≢ none)
  unfolding save
  save_refused target id f hosts missing = ground (arith, missing)
