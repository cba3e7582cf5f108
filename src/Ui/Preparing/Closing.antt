-- ===== src/Ui/Preparing/Closing.antt =====
-- The client at the ends of `prepareSession` of internal/ui/app.go.
use lazyssh.Base.{Bool, true, false, ◌≡◌, ◌⊎◌, bytes_eq}
use lazyssh.Base.Result.{Result}
use lazyssh.Ssh.Helper.{Remote}
use lazyssh.Ui.Preparing.{
  Session, Screen, plain_shell, offer_shell, home_error, back, deploy_error, selector, Prepared,
}

-- The ends at which the source closes the client.
abbrev pub closes : Screen → Bool
closes plain_shell = true
closes offer_shell = true
closes home_error = false
closes back = false
closes deploy_error = false
closes (selector home names) = true

abbrev pub Ended : Session → Remote → Prepared → Type 0
Ended s r p = (p.closed ≡ closes p.screen) × ((s.accepts ≡ true) ⊎ (p.remote ≡ r))
