-- ===== src/Agent/Notice.antt =====
-- `escapeForAppleScript` and `defaultNotify` of agent.go: a message put into a script for osascript.
pub mod Quoted
use touchid_agent.Prelude.{ℕ, Bool, true, false, ◌&&◌, List, [], ◌∷◌, ◌++◌, ◌==◌, if◌then◌else◌}
use touchid_agent.Text.{Text, codes}

-- strings.ReplaceAll of one character, and of `$(` by nothing
unfoldable pub replace_rune : ℕ → Text → Text → Text
replace_rune c by [] = []
replace_rune c by (d ∷ s) =
    let rest = replace_rune c by s in if d == c then by ++ rest else d ∷ rest

unfoldable pub remove_openings : Text → Text
remove_openings [] = []
remove_openings (c ∷ []) = c ∷ []
remove_openings (c ∷ d ∷ s) =
    let behind = remove_openings s in
    let rest = remove_openings (d ∷ s) in if c == b'$' && d == b'(' then behind else c ∷ rest

unfoldable pub escape_for_apple_script : Text → Text
escape_for_apple_script s = remove_openings (
    replace_rune b'`' []
      (replace_rune b'"' (b'\\' ∷ b'"' ∷ []) (replace_rune b'\\' (b'\\' ∷ b'\\' ∷ []) s)))

abbrev pub script_head : Text
script_head = codes "display notification "

abbrev pub script_tail : Text
script_tail = codes " with title \"touchid-agent\""

-- The script that `defaultNotify` runs.
unfoldable pub notify_script : Text → Text
notify_script message =
    script_head ++ b'"' ∷ (escape_for_apple_script message ++ b'"' ∷ script_tail)
