-- ===== src/Dsh/Ui/Partial.antt =====
-- What src/backend/dsh/ui.rs takes from a log that is still being written.
use Prim.Native.Char.{code}
use Prim.Native.String.{String}
use codex_bridge.Common.{◌≡◌, refl, false, nat_eq, ◌⧺◌}
use codex_bridge.Dsh.Ui.{complete_lines, last_complete_ui_url, first_complete_ui_url}
use text.Mathlib.TextLemmas.{nil-append, cons-append}

-- No line break in a text.
abbrev pub NoBreak : String → Type 0
NoBreak String.[] = Unit
NoBreak (String.◌∷◌ c s) = (nat_eq (code c) 10 ≡ false) × NoBreak s

no_lines : (s : String) → NoBreak s → complete_lines s ≡ String.[]
unfolding complete_lines
no_lines String.[] n = refl
no_lines (String.◌∷◌ c s) (e, n) = rw (e, no_lines s n) refl

complete_lines-append :
    (log part : String) → NoBreak part → complete_lines (log ⧺ part) ≡ complete_lines log
unfolding complete_lines
complete_lines-append String.[] part n = rw (nil-append part) (no_lines part n)
complete_lines-append (String.◌∷◌ c log) part n =
    rw (cons-append c log part, complete_lines-append log part n) refl

-- A line that is still being written is not read: a part without a line break behind the log changes
-- neither the last URL nor the first.
pub complete_ui_url-append :
    (log part : String)
    → NoBreak part
    → (last_complete_ui_url (log ⧺ part) ≡ last_complete_ui_url log)
      × (first_complete_ui_url (log ⧺ part) ≡ first_complete_ui_url log)
unfolding last_complete_ui_url first_complete_ui_url
complete_ui_url-append log part n = rw (complete_lines-append log part n) (refl, refl)
