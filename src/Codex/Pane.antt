-- ===== src/Codex/Pane.antt =====
-- src/backend/codex/pane.rs: the Herdr pane for a thread. The commands run over the `World`, and the pauses
-- over its machine.
use Prim.Native.String.{String}
pub mod Attempts
use codex_bridge.Common.{
  ℕ, zero, suc, ◌+◌, Bool, ◌||◌, not, Option, none, some, List, [], ◌∷◌, Act, Result, ok, err, pure,
  bail, context, ◌>>=◌, ◌>>◌, ◌⧺◌, ◌==◌, and_then, find, is_some_and, if◌then◌else◌, ok_or, or_else,
  unwrap_or, ◌^◌,
}
use codex_bridge.Common.Decimal.{show_ℕ, parse_unsigned}
use codex_bridge.Json.{get_str, pointer, as_str, as_array}
use codex_bridge.Host.{Outside, CommandOutput, act, slept}
use codex_bridge.Connection.{World}

abbrev pub rename_retries : ℕ
rename_retries = 10

abbrev pub env_ms : Outside → String → ℕ → ℕ
env_ms o key default = unwrap_or (and_then (o.env key) (parse_unsigned (2 ^ 64))) default

abbrev pub settle_ms : Outside → ℕ
settle_ms o = env_ms o "AGENT_BRIDGE_CODEX_PANE_DELAY_MS" 2000

abbrev pub rename_retry_ms : Outside → ℕ
rename_retry_ms o = env_ms o "AGENT_BRIDGE_CODEX_PANE_RETRY_MS" 500

-- `sleep`
unfoldable pub pause : ℕ → World → World
unfolding act
pause ms w = record w { machine = act w.outside (slept ms) ms w.machine }

take_chars : ℕ → String → String
take_chars zero s = String.[]
take_chars (suc n) String.[] = String.[]
take_chars (suc n) (String.◌∷◌ c s) = String.◌∷◌ c (take_chars n s)

unfoldable pub agent_name : String → String
unfolding take_chars
agent_name thread_id = "codex-" ⧺ take_chars 8 thread_id

abbrev pub extensions : Bool → List String
extensions windows = if windows then "" ∷ ".exe" ∷ ".cmd" ∷ ".bat" ∷ [] else "" ∷ []

-- The first extension with which the directory holds the file.
file_in : Outside → String → String → List String → Option String
file_in o name dir [] = none
file_in o name dir (ext ∷ exts) =
    let rest = file_in o name dir exts in
    let candidate = o.join dir (name ⧺ ext) in if o.is_file candidate then some candidate else rest

-- The first directory of PATH that holds it.
first_file : Outside → String → List String → Option String
unfolding file_in
first_file o name [] = none
first_file o name (dir ∷ dirs) =
    or_else (file_in o name dir (extensions o.windows)) (first_file o name dirs)

unfoldable pub which : Outside → String → Option String
unfolding first_file
which o name = and_then (o.env "PATH") (λ path. first_file o name (o.split_paths path))

explicit_or_which : Outside → Option String → Option String
unfolding which
explicit_or_which o (some bin) = if bin == "" then none else some bin
explicit_or_which o none = which o "herdr"

unfoldable pub herdr_bin : Bool → Outside → Option String
unfolding explicit_or_which
herdr_bin no_pane o =
    if no_pane || not (is_some_and (λ v. v == "1") (o.env "HERDR_ENV"))
    then none
    else explicit_or_which o (o.env "AGENT_BRIDGE_CODEX_HERDR_BIN")

unfoldable pub warn : String → World → World
warn message w = record w { stderr = ("agent-bridge codex: herdr pane: " ⧺ message) ∷ w.stderr }

unfoldable pub herdr : String → List String → Act World CommandOutput
herdr bin args w =
    let commands = (bin ∷ args) ∷ w.commands in
    (context ("running " ⧺ bin) (w.outside.runs commands), record w { commands = commands })

-- What a failed attempt leaves in `last`; `none` when the attempt succeeded.
pub attempt_error : Result CommandOutput → Option String
attempt_error (ok output) = if output.success then none else some output.stderr_text
attempt_error (err e) = some e

-- There is a pause before each attempt but the first.
pub before_attempt : ℕ → World → World
unfolding pause
before_attempt zero w = w
before_attempt (suc attempt) w = pause (rename_retry_ms w.outside) w

-- The `for` loop of `rename`, over the attempts that are left and the number of the next one.
pub rename_loop : ℕ → ℕ → String → String → String → String → Act World Unit
unfolding herdr attempt_error before_attempt
rename_loop zero attempt bin pane_id name last w = (
  err (
      "herdr agent rename "
      ⧺ pane_id
      ⧺ " "
      ⧺ name
      ⧺ " failed "
      ⧺ show_ℕ (rename_retries + 1)
      ⧺ " times: "
      ⧺ last),
  w,
)
rename_loop (suc n) attempt bin pane_id name last w =
    let (r, w') = herdr bin ("agent" ∷ "rename" ∷ pane_id ∷ name ∷ []) (before_attempt attempt w) in
    elim (attempt_error r) [
      | none ↦ (ok tt, w')
      | some e ↦ rename_loop n (suc attempt) bin pane_id name e w'
    ]

unfoldable pub rename : String → String → String → Act World Unit
unfolding rename_loop
rename bin pane_id name = rename_loop (rename_retries + 1) 0 bin pane_id name ""

warn_error : Result (Unit {0}) → World → World
unfolding warn
warn_error (ok _) w = w
warn_error (err e) w = warn e w

warn_start : Result CommandOutput → World → World
unfolding warn
warn_start (ok started) w =
    if started.success
    then w
    else warn ("herdr agent start did not confirm readiness: " ⧺ started.stderr_text) w
warn_start (err e) w = warn ("herdr agent start failed: " ⧺ e) w

unfoldable pub attach : String → String → String → String → String → World → World
unfolding herdr warn_start warn_error rename
attach bin pane_id name thread_id ws_url w =
    let (started, w₁) =
      herdr bin
        ("agent" ∷ "start" ∷ name ∷ "--kind" ∷ "codex" ∷ "--pane" ∷ pane_id ∷ "--timeout" ∷ "5000"
          ∷ "--" ∷ "resume" ∷ thread_id ∷ "--remote" ∷ ws_url ∷ [])
        w in
    let (renamed, w₂) = rename bin pane_id name (warn_start started w₁) in warn_error renamed w₂

-- The pane with this label, in what `herdr pane list` printed.
labelled : String → Result CommandOutput → Option String
labelled name (err e) = none
labelled name (ok listed) =
    if listed.success
    then and_then
        (and_then
          (and_then (and_then listed.stdout_json (pointer ("result" ∷ "panes" ∷ []))) as_array)
          (find (λ pane. is_some_and (λ l. l == name) (get_str "label" pane))))
        (get_str "pane_id")
    else none

unfoldable pub pane_by_label : String → String → World → Option String × World
unfolding herdr labelled
pane_by_label bin name w = let (r, w') = herdr bin ("pane" ∷ "list" ∷ []) w in (labelled name r, w')

-- A command's failure as an error.
must_succeed : String → CommandOutput → Act World Unit
must_succeed what output = if output.success then pure tt else bail (what ⧺ output.stderr_text)

unfoldable pub label_pane : String → String → String → Act World Unit
unfolding herdr must_succeed
label_pane bin pane_id name = do
  output ← herdr bin ("pane" ∷ "rename" ∷ pane_id ∷ name ∷ [])
  must_succeed ("herdr pane rename " ⧺ pane_id ⧺ " " ⧺ name ⧺ " failed: ") output

split_pane_id : CommandOutput → Result String
split_pane_id split =
    ok_or
      (and_then (and_then split.stdout_json (pointer ("result" ∷ "pane" ∷ "pane_id" ∷ []))) as_str)
      "herdr pane split printed no .result.pane.pane_id"

-- A new pane: split, label it, attach.
split_pane : String → String → String → String → String → Act World Unit
unfolding herdr must_succeed split_pane_id warn_error label_pane attach pause
split_pane bin name thread_id cwd ws_url = do
  split ← herdr bin (
      "pane" ∷ "split" ∷ "--current" ∷ "--direction" ∷ "right" ∷ "--ratio" ∷ "0.45" ∷ "--cwd" ∷ cwd
      ∷ [])
  must_succeed "herdr pane split failed: " split
  pane_id ← (λ w. (split_pane_id split, w))
  (λ w.
      let (labelled, w₁) = label_pane bin pane_id name w in
      let w₂ = pause (settle_ms w₁.outside) (warn_error labelled w₁) in
      (ok tt, attach bin pane_id name thread_id ws_url w₂))

-- Reuse the pane with this label, or open one.
reuse_or_split :
    Option String × World → String → String → String → String → String → Result (Unit {0}) × World
unfolding attach split_pane
reuse_or_split (some pane_id, w) bin name thread_id cwd ws_url =
    (ok tt, attach bin pane_id name thread_id ws_url w)
reuse_or_split (none, w) bin name thread_id cwd ws_url = split_pane bin name thread_id cwd ws_url w

-- `pane::open`
unfoldable pub open_pane : String → String → String → String → Act World Unit
unfolding agent_name herdr pane_by_label reuse_or_split
open_pane bin thread_id cwd ws_url =
    let name = agent_name thread_id in
    do
      found ← herdr bin ("agent" ∷ "get" ∷ name ∷ [])
      if found.success then pure tt else λ w.
          reuse_or_split (pane_by_label bin name w) bin name thread_id cwd ws_url
