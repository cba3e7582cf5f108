-- ===== src/Ui/Actions/Keys.antt =====
-- The keys of the file browser (`bindKeys` of internal/ui/filebrowser.go), and what each command asks for.
use lazyssh.Base.{ℕ, ◌||◌, nat_eq, Option, none, some, Bytes, ◌==◌, if◌then◌else◌}
use lazyssh.Ui.Actions.{
  Panels, Answer, nothing, upload, download, create_file, mkdir, delete_selected, view_file,
  edit_file,
}

pub data Key : Type 0 where
  tab backtab escape enter f3 f4 f5 f6 f7 f8 delete ctrl_o : Key
  rune : ℕ → Key
  other : Key

pub data Command : Type 0 where
  switching closing opening uploading downloading creating making deleting viewing editing : Command
  terminal : Command

abbrev of_rune : ℕ → Option Command
of_rune c =
    if c == b'u' || c == b'U'
    then some uploading
    else if c == b'd' || c == b'D'
    then some downloading
    else if c == b'n' || c == b'N'
    then some creating
    else if c == b'm' || c == b'M'
    then some making
    else if c == b'x' || c == b'X'
    then some deleting
    else if c == b'v' || c == b'V'
    then some viewing
    else if c == b'e' || c == b'E'
    then some editing
    else if c == b't' || c == b'T'
    then some terminal
    else none

-- `bindKeys`; `none` where the table handles the key.
unfoldable pub bind_keys : Key → Option Command
bind_keys tab = some switching
bind_keys backtab = some switching
bind_keys escape = some closing
bind_keys enter = some opening
bind_keys f3 = some viewing
bind_keys f4 = some editing
bind_keys f5 = some uploading
bind_keys f6 = some downloading
bind_keys f7 = some making
bind_keys f8 = some deleting
bind_keys delete = some deleting
bind_keys ctrl_o = some terminal
bind_keys (rune c) = of_rune c
bind_keys other = none

-- The question or call of a command, with the name that a prompt is answered with.
unfoldable pub act : Panels → Bytes → Command → Answer
unfolding upload download create_file mkdir delete_selected view_file edit_file
act p name uploading = upload p
act p name downloading = download p
act p name creating = create_file p name
act p name making = mkdir p name
act p name deleting = delete_selected p
act p name viewing = view_file p
act p name editing = edit_file p
act p name switching = nothing
act p name closing = nothing
act p name opening = nothing
act p name terminal = nothing

abbrev pub of_command : Panels → Bytes → Option Command → Answer
of_command p name none = nothing
of_command p name (some c) = act p name c

unfoldable pub press : Panels → Bytes → Key → Answer
press p name k = of_command p name (bind_keys k)
