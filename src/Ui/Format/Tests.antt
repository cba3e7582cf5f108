-- ===== src/Ui/Format/Tests.antt =====
-- What internal/ui/filebrowser.go shows of sizes and names, at concrete inputs.
use lazyssh.Base.{◌*◌, ◌-◌, false, codes, ◌≡◌, refl, arith}
use lazyssh.Strings.Decimal.{itoa, digits}
use lazyssh.Ui.Format.{format_size, format_perms, tenths, one_decimal}
use lazyssh.Ui.Format.Near.{IsShown, format_size-IsShown}

one_and_a_half : format_size 1536 false ≡ codes "1.5K"
unfolding format_size tenths one_decimal itoa digits
one_and_a_half = refl

-- A tie goes to the even digit.
tie : format_size 1280 false ≡ codes "1.2K"
unfolding format_size tenths one_decimal itoa digits
tie = refl

just_below : format_size (1024 * 1024 - 1) false ≡ codes "1024.0K"
unfolding format_size tenths one_decimal itoa digits
just_below = refl

-- The mode of a sticky directory is a byte longer than what is shown.
sticky : format_perms (codes "dtrwxrwxrwx") ≡ codes "dtrwxrwxrw"
unfolding format_perms
sticky = refl

format_size-IsShown_example : IsShown 1536 (format_size 1536 false)
format_size-IsShown_example = format_size-IsShown 1536 (omega arith)
