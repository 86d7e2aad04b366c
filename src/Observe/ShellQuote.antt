-- ===== src/Observe/ShellQuote.antt =====
-- `ShellQuote` of internal/observe/logs.go.
use srvgov_cli.Prelude.{◌≡◌, [], ◌∷◌, ◌++◌, append_assoc, ◌==◌, if◌then◌else◌}
use srvgov_cli.GoText.{Text, codes}

-- strings.ReplaceAll of the single quote
unfoldable pub replace_quotes : Text → Text
replace_quotes [] = []
replace_quotes (c ∷ v) = (if c == 39 then codes "'\"'\"'" else c ∷ []) ++ replace_quotes v

unfoldable pub shell_quote : Text → Text
unfolding replace_quotes
shell_quote value = 39 ∷ (replace_quotes value ++ 39 ∷ [])

-- The quoted word before other text.
pub shell_quote-append :
    (v rest : Text) → shell_quote v ++ rest ≡ 39 ∷ (replace_quotes v ++ 39 ∷ rest)
unfolding shell_quote
shell_quote-append v rest = simp append_assoc
