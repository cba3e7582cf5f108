-- ===== src/Ui/Browsing/Tests.antt =====
-- The file browser of internal/ui/filebrowser.go as a whole, at a concrete run.
use lazyssh.Base.{true, none, some, List, [], ◌∷◌, codes, ◌≡◌, refl}
use lazyssh.Strings.{trim_right}
use lazyssh.Ui.Browser.{
  Listing, start_remote_load, finish_load, open_selected, open_remote_row, load_local,
}
use lazyssh.Ui.Actions.{Panels, Side, switch_panel}
use lazyssh.Ui.Actions.Keys.{Key, press, bind_keys}
use lazyssh.Ui.Actions.About.{IsAbout}
use lazyssh.Ui.Browsing.{new_file_browser, Happening, happen, browse}
use lazyssh.Ui.Browsing.Shown.{browse-IsAbout}

abbrev listing : Listing
listing = λ d. some (record { name = codes "logs"; is_dir = true } ∷ [])

abbrev keys : List Happening
keys =
    Happening.loaded
    ∷ Happening.pressed Key.tab
    ∷ Happening.moved Side.on_remote 1
    ∷ Happening.pressed Key.enter
    ∷ Happening.loaded
    ∷ Happening.moved Side.on_remote 1
    ∷ []

abbrev after : Panels
after = browse listing listing (new_file_browser listing (codes "/w") (codes "/h")) keys

idle : after.right.loading ≡ none
unfolding browse happen new_file_browser bind_keys switch_panel start_remote_load finish_load
    open_selected open_remote_row load_local
idle = refl

gone_in : after.right.remote_dir ≡ codes "/h/logs"
unfolding browse happen new_file_browser bind_keys switch_panel start_remote_load finish_load
    open_selected open_remote_row load_local trim_right
gone_in = refl

browse-IsAbout_example :
    IsAbout after.left.local_path_str after.right.remote_path_str [] after
      (press after [] (Key.rune b'x'))
browse-IsAbout_example =
    browse-IsAbout listing listing (codes "/w") (codes "/h") [] keys (Key.rune b'x')
      (λ d. (record { name = codes "logs"; is_dir = true } ∷ [], refl))
      (λ d. (record { name = codes "logs"; is_dir = true } ∷ [], refl)) idle
