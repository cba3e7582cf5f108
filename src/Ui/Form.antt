-- ===== src/Ui/Form.antt =====
-- `save` of internal/ui/hostform.go: the form's fields are checked and written to a host of the store.
mod Tests
pub mod Saved
pub mod Unchanged
use lazyssh.Base.{
  ℕ, zero, suc, ◌-◌, Bool, true, false, ◌&&◌, Option, none, some, List, [], ◌∷◌, ◌++◌, Bytes, codes,
  set, get_elem?, length, ◌==◌, nat_eq, bytes_eq, if◌then◌else◌, leb, ltb,
}
use lazyssh.Base.Int.{ℤ, pos, negsuc}
use lazyssh.Base.Result.{Result, ok, err}
use lazyssh.Strings.{trim_space, split, join}
use lazyssh.Strings.Decimal.{read_digits, max_int, itoa}
use lazyssh.Model.{Host, auth_type_key, effective_port}

pub record Fields : Type 0 where
  pub name : Bytes
  pub hostname : Bytes
  pub port : Bytes
  pub user : Bytes
  pub auth_type : Bytes
  pub key_path : Bytes
  pub password : Bytes
  pub folder : Bytes
  pub tags : Bytes

pub data Refusal : Type 0 where
  name_required : Refusal
  hostname_required : Refusal
  user_required : Refusal
  not_encrypted : Refusal

abbrev pub key_if_empty : Bytes → Bytes
key_if_empty t = if t == [] then auth_type_key else t

-- The fields when the form opens: for a new host, or for the one to edit.
unfoldable pub fields_of : Option Host → Fields
fields_of none = record {
  name = [];
  hostname = [];
  port = codes "22";
  user = [];
  auth_type = auth_type_key;
  key_path = [];
  password = [];
  folder = [];
  tags = [];
}
fields_of (some h) = record {
  name = h.name;
  hostname = h.hostname;
  port = itoa (effective_port h);
  user = h.user;
  auth_type = key_if_empty h.auth_type;
  key_path = h.key_path;
  password = [];
  folder = h.folder;
  tags = join h.tags (codes ", ");
}

-- `strconv.Atoi`
abbrev pub positive : Option ℕ → Option ℤ
positive none = none
positive (some n) = if leb n max_int then some (pos n) else none

abbrev negated : ℕ → ℤ
negated zero = pos zero
negated (suc n) = negsuc n

abbrev negative : Option ℕ → Option ℤ
negative none = none
negative (some n) = if leb n (suc max_int) then some (negated n) else none

abbrev pub magnitude : Bytes → Option ℕ
magnitude [] = none
magnitude (c ∷ s) = read_digits 0 (c ∷ s)

unfoldable pub atoi : Bytes → Option ℤ
atoi [] = none
atoi (c ∷ s) =
    if c == b'-'
    then negative (magnitude s)
    else if c == b'+'
    then positive (magnitude s)
    else positive (magnitude (c ∷ s))

-- The port typed, where it is a positive number, and else 22.
abbrev port_or_22 : Option ℤ → ℤ
port_or_22 (some (pos (suc n))) = pos (suc n)
port_or_22 _ = pos 22

unfoldable pub port_of : Bytes → ℤ
port_of s = port_or_22 (atoi (trim_space s))

abbrev pub nonempty_trimmed : List Bytes → List Bytes
nonempty_trimmed [] = []
nonempty_trimmed (t ∷ ts) =
    (if trim_space t == [] then [] else trim_space t ∷ []) ++ nonempty_trimmed ts

unfoldable pub tags_of : Bytes → List Bytes
tags_of s = nonempty_trimmed (split s b',')

-- The host with the fields written to it. Its id and password stay.
unfoldable pub fill : Fields → Host → Host
unfolding port_of tags_of
fill f h = record h {
  name = trim_space f.name;
  hostname = trim_space f.hostname;
  port = port_of f.port;
  user = trim_space f.user;
  auth_type = f.auth_type;
  key_path = trim_space f.key_path;
  folder = trim_space f.folder;
  tags = tags_of f.tags;
}

abbrev pub new_host : Bytes → Host
new_host id = record {
  id = id;
  name = [];
  hostname = [];
  port = pos 0;
  user = [];
  auth_type = [];
  key_path = [];
  password = [];
  folder = [];
  tags = [];
}

-- The password to keep: an empty field keeps the old one, and a master password encrypts.

unfoldable pub new_password :
    (Bytes → Bytes → Option Bytes) → Bytes → Fields → Host → Result Refusal Bytes
new_password encrypt master f h =
    if f.password == []
    then ok h.password
    else if master == []
    then ok f.password
    else elim (encrypt master f.password) [ some v ↦ ok v | none ↦ err not_encrypted ]

-- The host that the form edits, by its position, or the new one, appended first.
abbrev pub opened : Option ℕ → Bytes → List Host → List Host × ℕ
opened (some i) id hosts = (hosts, i)
opened none id hosts = (hosts ++ new_host id ∷ [], length hosts)

abbrev pub with_password : List Host → ℕ → Host → Result Refusal Bytes → List Host × Option Refusal
with_password hosts i h (ok p) = (set hosts i (record h { password = p }), none)
with_password hosts i h (err e) = (set hosts i h, some e)

abbrev pub write :
    (Bytes → Bytes → Option Bytes)
    → Bytes
    → Fields
    → List Host
    → ℕ
    → Option Host
    → List Host × Option Refusal
write encrypt master f hosts i none = (hosts, none)
write encrypt master f hosts i (some h) =
    with_password hosts i (fill f h) (new_password encrypt master f h)

abbrev pub open_and_write :
    (Bytes → Bytes → Option Bytes) → Bytes → Fields → List Host × ℕ → List Host × Option Refusal
open_and_write encrypt master f (hosts, i) = write encrypt master f hosts i (get_elem? hosts i)

-- The hosts in memory after the call, and the refusal shown. The store is written to the disk and the
-- form closed where there is none.
unfoldable pub save :
    (Bytes → Bytes → Option Bytes)
    → Bytes
    → Option ℕ
    → Bytes
    → Fields
    → List Host
    → List Host × Option Refusal
save encrypt master target id f hosts =
    if trim_space f.name == []
    then (hosts, some name_required)
    else if trim_space f.hostname == []
    then (hosts, some hostname_required)
    else if trim_space f.user == []
    then (hosts, some user_required)
    else open_and_write encrypt master f (opened target id hosts)

unfoldable pub accept_digits : ℕ → Bool
accept_digits c = leb b'0' c && leb c b'9'
