-- ===== src/Ui/Main/Refused.antt =====
-- `save` of internal/ui/hostform.go, where encryption succeeds.
use lazyssh.Base.{
  ℕ, Bool, true, false, Option, none, some, List, [], Bytes, ◌≡◌, refl, ◌==◌, bytes_eq, get_elem?,
  if◌then◌else◌, arith,
}
use lazyssh.Base.Result.{Result, ok, err}
use lazyssh.Strings.{trim_space}
use lazyssh.Model.{Host}
use lazyssh.Ui.Form
use lazyssh.Ui.Form.{
  Fields, Refusal, new_password, open_and_write, write, opened, fill, with_password,
}

-- Where encryption succeeds, a refusal of the form leaves the hosts as they were.
abbrev pub IsUnchanged : List Host → List Host × Option Refusal → Type 0
IsUnchanged hosts (hs, none) = Unit
IsUnchanged hosts (hs, some r) = hs ≡ hosts

module _ (encrypt : Bytes → Bytes → Option Bytes)
    (encrypts : (k t : Bytes) → (v : Bytes) × (encrypt k t ≡ some v)) where
  if-IsUnchanged :
      (hosts : List Host) (b : Bool) (x y : List Host × Option Refusal)
      → IsUnchanged hosts x
      → IsUnchanged hosts y
      → IsUnchanged hosts (if b then x else y)
  if-IsUnchanged hosts true x y hx hy = hx
  if-IsUnchanged hosts false x y hx hy = hy

  abbrev IsOk : Result Refusal Bytes → Type 0
  IsOk r = (p : Bytes) × (r ≡ ok p)

  if-IsOk : (b : Bool) (x y : Result Refusal Bytes) → IsOk x → IsOk y → IsOk (if b then x else y)
  if-IsOk true x y hx hy = hx
  if-IsOk false x y hx hy = hy

  encrypted : Bytes → Bytes → Result Refusal Bytes
  encrypted k t = elim (encrypt k t) [ some v ↦ ok v | none ↦ err Refusal.not_encrypted ]

  new_password-IsOk :
      (master : Bytes) (f : Fields) (h : Host) → IsOk (new_password encrypt master f h)
  unfolding new_password encrypted
  new_password-IsOk master f h =
      if-IsOk (f.password == []) (ok h.password)
        (if master == [] then ok f.password else encrypted master f.password) (h.password, refl)
        (if-IsOk (master == []) (ok f.password) (encrypted master f.password) (f.password, refl)
          (let (v, e) = encrypts master f.password in rw (e, encrypted) (v, refl)))

  written-IsUnchanged :
      (hosts hs : List Host) (i : ℕ) (h : Host) (r : Result Refusal Bytes)
      → IsOk r
      → IsUnchanged hosts (with_password hs i h r)
  written-IsUnchanged hosts hs i h (ok p) e = tt
  written-IsUnchanged hosts hs i h (err x) (p, e) = absurd (ground arith)

  write-IsUnchanged :
      (master : Bytes) (f : Fields) (hosts hs : List Host) (i : ℕ) (o : Option Host)
      → IsUnchanged hosts (write encrypt master f hs i o)
  write-IsUnchanged master f hosts hs i none = tt
  write-IsUnchanged master f hosts hs i (some h) =
      written-IsUnchanged hosts hs i (fill f h) (new_password encrypt master f h)
        (new_password-IsOk master f h)

  pub save-IsUnchanged :
      (master : Bytes) (target : Option ℕ) (id : Bytes) (f : Fields) (hosts : List Host)
      → IsUnchanged hosts (Form.save encrypt master target id f hosts)
  unfolding Form.save
  save-IsUnchanged master target id f hosts =
      let (hs, i) = opened target id hosts in
      let rest = write encrypt master f hs i (get_elem? hs i) in
      let after_user =
        if trim_space f.user == [] then (hosts, some Refusal.user_required) else rest in
      let after_hostname =
        if trim_space f.hostname == []
        then (hosts, some Refusal.hostname_required)
        else after_user in
      if-IsUnchanged hosts (trim_space f.name == []) (hosts, some Refusal.name_required)
        after_hostname refl
        (if-IsUnchanged hosts (trim_space f.hostname == []) (hosts, some Refusal.hostname_required)
          after_user refl
          (if-IsUnchanged hosts (trim_space f.user == []) (hosts, some Refusal.user_required) rest
            refl (write-IsUnchanged master f hosts hs i (get_elem? hs i))))
