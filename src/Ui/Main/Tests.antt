-- ===== src/Ui/Main/Tests.antt =====
-- The main screen (internal/ui/hostlist.go) at a concrete run.
use lazyssh.Base.{
  zero, suc, true, Option, none, some, List, [], ◌∷◌, Bytes, codes, ◌≡◌, refl, length, arith,
  bytes_eq, bytes_beq,
}
use lazyssh.Base.Result.{ok}
use lazyssh.Model.{Store}
use lazyssh.Model.Tests.{web}
use lazyssh.Config.Storage.{Yaml, Disk, Env, file, load, save, write}
use lazyssh.Ui.Hosts.{host_node, delete_host}
use lazyssh.Ui.Tree.{rebuild}
use lazyssh.Ui.Main.{Input, input, inputs, new_app, rebuilt, delete_selected, persist}
use lazyssh.Ui.Main.Written.{Takes, Fits}
use lazyssh.Ui.Main.InStep.{InStep}
use lazyssh.Ui.Main.Inputs.{Smooth, new_app-InStep}

abbrev one_host : Store
one_host = record { version = codes "1"; hosts = web ∷ [] }

abbrev no_host : Store
no_host = record { version = codes "1"; hosts = [] }

-- An encoding of these two stores.
abbrev decode : Bytes → Option Store
decode [] = none
decode (zero ∷ bs) = some no_host
decode (suc n ∷ bs) = some one_host

abbrev yaml : Yaml
yaml = record { encode = λ s. length s.hosts ∷ []; decode = decode; decode_empty = refl }

abbrev env : Env
env = record { xdg_config_home = codes "/c"; home = codes "/h" }

abbrev disk : Disk
disk = record { node = λ p. file (1 ∷ []); can_mkdir = λ p. true; can_write = λ p. true; room = 10 }

abbrev keys : List Input
keys =
    Input.slash
    ∷ Input.typed (codes "w")
    ∷ Input.bar_enter
    ∷ Input.moved (some (host_node web))
    ∷ Input.deletes
    ∷ Input.escape
    ∷ []

abbrev no_cipher : Bytes → Bytes → Option Bytes
no_cipher k t = some t

disk-Takes : Takes env disk
disk-Takes = record { made = refl; opens = refl }

loaded : load yaml env disk ≡ ok one_host
unfolding load
loaded = refl

one-Fits : Fits yaml one_host disk
one-Fits = (refl, omega arith)

none-Fits : Fits yaml no_host disk
none-Fits = (refl, omega arith)

keys-Smooth : Smooth yaml env no_cipher (new_app one_host disk) keys
unfolding input new_app rebuilt rebuild delete_selected persist delete_host save write bytes_beq
keys-Smooth = (
  tt,
  one-Fits,
  (tt, one-Fits, (tt, one-Fits, (tt, one-Fits, (tt, none-Fits, (tt, none-Fits, tt))))),
)

new_app-InStep_example : InStep yaml env (inputs yaml env no_cipher (new_app one_host disk) keys)
new_app-InStep_example =
    new_app-InStep yaml env no_cipher one_host disk keys (λ k t. (t, refl)) disk-Takes loaded
      keys-Smooth

-- The host is deleted in memory.
deleted : (inputs yaml env no_cipher (new_app one_host disk) keys).store ≡ no_host
unfolding inputs input new_app rebuilt rebuild delete_selected persist delete_host bytes_beq
deleted = refl
