-- ===== src/Ui/Sessions/Started.antt =====
-- From the selector of internal/ui/app.go to the helper's command line (cmd/lss/main.go).
use lazyssh.Base.{
  ℕ, suc, ◌&&◌, not, Bool, true, false, Option, none, some, List, [], ◌∷◌, ◌++◌, Bytes, codes, ◌≡◌,
  refl, sym, ap, ◌∙◌, get_elem?, append_assoc, ◌==◌, bytes_eq, bytes_beq, arith, if◌then◌else◌,
}
use lazyssh.Paths.{join_path}
use lazyssh.Model.{Host, user_host, effective_port, auth_type_key}
use lazyssh.Ssh.Helper.{lss_rel_path, new_session_cmd, attach_session_cmd}
use lazyssh.Ssh.Helper.Quote.{shell, between, all_plain, shell-session_cmd}
use lazyssh.Strings.Decimal.{itoa}
use lazyssh.Ssh.Terminal.{ssh_args}
use lazyssh.Lss.Commands.{Action, main, command, require_arg}
use lazyssh.Ui.Sessions.{Picked, launch, pick, name_session, started}

-- What `lss` does with the words that a shell makes of the command.
abbrev pub on_server : Option (List Bytes) → Option Action
on_server none = none
on_server (some []) = none
on_server (some (program ∷ args)) = some (main false args)

main_attach : (name : Bytes) → main false (codes "attach" ∷ name ∷ []) ≡ Action.attach name
unfolding main command require_arg bytes_beq
main_attach name = refl

main_new : (name : Bytes) → main false (codes "new" ∷ name ∷ []) ≡ Action.new name
unfolding main command require_arg bytes_beq
main_new name = refl

-- `ssh` is started with the command as its last argument, which makes `lss` act on the server.
abbrev pub RunsAs : Host → Option Picked → Action → Type 0
RunsAs h p a =
    (cmd : Bytes) × (before : List Bytes) × (started h p ≡ some (before ++ cmd ∷ []))
    × (on_server (shell between cmd) ≡ some a)

abbrev EndsWith : Bytes → List Bytes → Type 0
EndsWith cmd l = (before : List Bytes) × (l ≡ before ++ cmd ∷ [])

else-EndsWith :
    (cmd : Bytes) (b : Bool) (x y : List Bytes)
    → b ≡ false
    → EndsWith cmd y
    → EndsWith cmd (if b then x else y)
else-EndsWith cmd true x y e h = absurd (ground arith)
else-EndsWith cmd false x y e h = h

three-EndsWith : (l : List Bytes) (a b cmd : Bytes) → EndsWith cmd (l ++ a ∷ b ∷ cmd ∷ [])
three-EndsWith l a b cmd = (l ++ a ∷ b ∷ [], sym (append_assoc l (a ∷ b ∷ []) (cmd ∷ [])))

ssh_args-EndsWith :
    (h : Host) (cmd : Bytes) → bytes_beq cmd [] ≡ false → EndsWith cmd (ssh_args h cmd)
unfolding ssh_args
ssh_args-EndsWith h cmd given =
    let args = codes "-p" ∷ itoa (effective_port h) ∷ [] in
    let with_key =
      if h.auth_type == auth_type_key && not (h.key_path == [])
      then args ++ codes "-i" ∷ h.key_path ∷ []
      else args in
    else-EndsWith cmd (cmd == []) (with_key ++ user_host h ∷ [])
      (with_key ++ codes "-t" ∷ user_host h ∷ cmd ∷ []) given
      (three-EndsWith with_key (codes "-t") (user_host h) cmd)

runs :
    (h : Host) (cmd program verb name : Bytes) (a : Action)
    → bytes_beq cmd [] ≡ false
    → shell between cmd ≡ some (program ∷ verb ∷ name ∷ [])
    → main false (verb ∷ name ∷ []) ≡ a
    → RunsAs h (some (launch cmd)) a
runs h cmd program verb name a given words acts =
    let (before, e) = ssh_args-EndsWith h cmd given in
    (cmd, before, ap (λ l. some l) e, ap (λ w. on_server w) words ∙ ap (λ x. some x) acts)

module _ (h : Host) (home : Bytes) (c : ℕ) (p : Bytes)
    (path : join_path (home ∷ lss_rel_path ∷ []) ≡ c ∷ p) (plain : all_plain (c ∷ p) ≡ true) where
  attach-given : (name : Bytes) → bytes_beq (attach_session_cmd home name) [] ≡ false
  unfolding attach_session_cmd bytes_beq
  attach-given name = rw path refl

  new-given : (name : Bytes) → bytes_beq (new_session_cmd home name) [] ≡ false
  unfolding new_session_cmd bytes_beq
  new-given name = rw path refl

  -- Where the helper's path on the server is made of plain bytes: choosing a listed session starts
  -- `ssh` with a last argument that makes the helper attach to exactly that session, and naming a
  -- new one, with any bytes but none, starts it with one that makes the helper create exactly that
  -- session.
  pub pick-RunsAs :
      (sessions : List Bytes) (i : ℕ) (name typed : Bytes)
      → get_elem? sessions i ≡ some name
      → bytes_beq typed [] ≡ false
      → RunsAs h (pick home sessions (suc i)) (Action.attach name)
        × RunsAs h (name_session home typed) (Action.new typed)
  unfolding pick name_session
  pick-RunsAs sessions i name typed there given = (
    rw there (
        runs h (attach_session_cmd home name) (c ∷ p) (codes "attach") name (Action.attach name)
          (attach-given name) (shell-session_cmd home name c p path plain).1 (main_attach name)),
    rw given (
        runs h (new_session_cmd home typed) (c ∷ p) (codes "new") typed (Action.new typed)
          (new-given typed) (shell-session_cmd home typed c p path plain).0 (main_new typed)),
  )
