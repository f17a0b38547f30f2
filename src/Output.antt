-- ===== src/Output.antt =====
-- src/core/output.rs: a line that cannot be written to stdout ends the process. What the stream answers is an
-- argument of each function; `none` is a function that returns.
use Prim.Native.Char.{Char, code}
use Prim.Native.String.{String}
use codex_bridge.Common.{
  ℕ, Bool, false, ◌||◌, ◌≡◌, refl, Option, none, some, Result, ok, err, and_ok, ◌⧺◌, nat_eq,
  if◌then◌else◌, Bool-cases, inl, inr, arith, subst, ◌↔◌,
}
use text.Mathlib.TextLemmas.{cons-append, nil-append}
use codex_bridge.Session.Handle.{exit_error}

-- `exit`, with the line on stderr before it.
pub record Exit : Type 0 where
  pub status : ℕ
  pub stderr_line : String

is_break : Char → Bool
is_break c = nat_eq (code c) 13 || nat_eq (code c) 10

-- `replace(['\r', '\n'], " ")`
unfoldable pub one_line : String → String
unfolding is_break
one_line String.[] = String.[]
one_line (String.◌∷◌ c s) =
    let rest = one_line s in if is_break c then String.◌∷◌ " " rest else String.◌∷◌ c rest

-- The text in front of the error.
abbrev failure : String
failure = "agent-bridge: failed writing stdout: "

abbrev pub failed_exit : String → Exit
failed_exit e = record { status = exit_error; stderr_line = failure ⧺ one_line e }

unfoldable pub check_stdout : Result (Unit {0}) → Option Exit
check_stdout (ok _) = none
check_stdout (err e) = some (failed_exit e)

-- The line is written, and flushed if that succeeds.
unfoldable pub write_line : Result (Unit {0}) → Result (Unit {0}) → Option Exit
unfolding check_stdout
write_line written flushed = check_stdout (and_ok written λ _. flushed)

unfoldable pub flush_stdout : Result (Unit {0}) → Option Exit
unfolding check_stdout
flush_stdout flushed = check_stdout flushed

-- A text without the two characters that break a line.
abbrev pub IsOneLine : String → Type 0
IsOneLine String.[] = Unit
IsOneLine (String.◌∷◌ c s) =
    (nat_eq (code c) 13 ≡ false) × (nat_eq (code c) 10 ≡ false) × IsOneLine s

pub one_line-IsOneLine : (s : String) → IsOneLine (one_line s)
unfolding one_line is_break
one_line-IsOneLine String.[] = tt
one_line-IsOneLine (String.◌∷◌ c s) = elim (Bool-cases (is_break c)) [
  | inl e ↦ rw e (refl, refl, one_line-IsOneLine s)
  | inr e ↦ rw e (ground arith, ground arith, one_line-IsOneLine s)
]

append-IsOneLine : (s t : String) → IsOneLine s → IsOneLine t → IsOneLine (s ⧺ t)
append-IsOneLine String.[] t h k = rw (nil-append t) k
append-IsOneLine (String.◌∷◌ c s) t (e, f, h) k =
    rw (cons-append c s t) (e, f, append-IsOneLine s t h k)

failure-IsOneLine : IsOneLine failure
unfolding one_line is_break
failure-IsOneLine =
    let same : one_line failure ≡ failure = refl in
    subst IsOneLine same (one_line-IsOneLine failure)

-- How a process ends that cannot write: by the code of an error, with one line on stderr.
abbrev pub IsFailure : Exit → Type 0
IsFailure x = (x.status ≡ 4) × IsOneLine x.stderr_line

failed-IsFailure : (e : String) (x : Exit) → some (failed_exit e) ≡ some x → IsFailure x
failed-IsFailure e x h =
    let same : failed_exit e ≡ x = ground arith in
    subst IsFailure same
      (refl, append-IsOneLine failure (one_line e) failure-IsOneLine (one_line-IsOneLine e))

-- A line on stdout ends the process exactly when it cannot be written or flushed, and then with the exit code of an
-- error and with a text on stderr that has no line break, whatever the error's text is.
pub write_line-Exit :
    (written flushed : Result (Unit {0}))
    → ((write_line written flushed ≡ none) ↔ ((written ≡ ok tt) × (flushed ≡ ok tt)))
      × ((x : Exit) → write_line written flushed ≡ some x → IsFailure x)
unfolding write_line check_stdout
write_line-Exit (ok _) (ok _) = ((λ e. (refl, refl), λ h. refl), λ x e. absurd (ground arith))
write_line-Exit (ok _) (err q) =
    ((λ e. absurd (ground arith), λ h. absurd (ground arith)), λ x e. failed-IsFailure q x e)
write_line-Exit (err q) flushed =
    ((λ e. absurd (ground arith), λ h. absurd (ground arith)), λ x e. failed-IsFailure q x e)
