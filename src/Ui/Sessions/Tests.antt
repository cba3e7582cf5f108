-- ===== src/Ui/Sessions/Tests.antt =====
-- The session selector of internal/ui/app.go at concrete inputs.
use lazyssh.Base.{[], ◌∷◌, List, Bytes, codes, ◌≡◌, refl, bytes_beq}
use lazyssh.Model.Tests.{web}
use lazyssh.Paths.{join_path, clean, push, spell}
use lazyssh.Strings.{split, join, has_prefix}
use lazyssh.Lss.Commands.{Action}
use lazyssh.Ui.Sessions.{pick, name_session, height}
use lazyssh.Ui.Sessions.Started.{RunsAs, pick-RunsAs}

abbrev names : List Bytes
names = codes "a" ∷ codes "it's" ∷ []

smallest : height names ≡ 7
unfolding height
smallest = refl

pick-RunsAs_example :
    RunsAs web (pick (codes "/root") names 2) (Action.attach (codes "it's"))
    × RunsAs web (name_session (codes "/root") (codes "x y")) (Action.new (codes "x y"))
unfolding join_path split join clean push spell has_prefix bytes_beq
pick-RunsAs_example =
    pick-RunsAs web (codes "/root") b'/' (codes "root/.lazyssh/bin/lss") refl refl names 1
      (codes "it's") (codes "x y") refl refl
