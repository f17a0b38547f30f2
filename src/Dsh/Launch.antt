-- ===== src/Dsh/Launch.antt =====
-- How src/backend/dsh finds and starts the daemon, and waits for its browser URL.
pub mod Waits
use codex_bridge.Common.{
  ℕ, zero, suc, ◌+◌, ◌/◌, ◌^◌, Bool, true, false, ◌&&◌, ◌||◌, String, Option, none, some, List, [],
  ◌∷◌, ◌⧺◌, leb, Result, ok, err, if◌then◌else◌, unwrap_or, and_then,
}
use codex_bridge.Common.Decimal.{parse_unsigned, show_ℕ}
use codex_bridge.Json.{Value, str, object}
use codex_bridge.Host.{Outside, Machine, Command, slept, warned, act}
use codex_bridge.Paths.{env_set, state_dir}
use codex_bridge.Dsh.Ui.{setting, ui_port, ui_url, first_complete_ui_url}

absolute : Outside → String → Option String
absolute o candidate =
    if o.is_absolute candidate
    then some candidate
    else elim o.current_dir [ none ↦ none | some cwd ↦ some (o.join cwd candidate) ]

-- The inner loop over names, then the loop over directories: the first executable file is the answer, and on Windows
-- the first file.
first_executable : Outside → String → List String → Option (Option String)
unfolding absolute
first_executable o dir [] = none
first_executable o dir (name ∷ names) =
    let rest = first_executable o dir names in
    let candidate = o.join dir name in
    if o.is_file candidate && (o.windows || o.is_executable candidate)
    then some (absolute o candidate)
    else rest

search_dirs : Outside → List String → List String → Option String
unfolding first_executable
search_dirs o names [] = none
search_dirs o names (dir ∷ dirs) = elim (first_executable o dir names) [
  | some found ↦ found
  | none ↦ search_dirs o names dirs
]

unfoldable pub find_on_path : Outside → List String → Option String
unfolding search_dirs
find_on_path o names = and_then (o.env "PATH") (λ path. search_dirs o names (o.split_paths path))

unfoldable pub node_bin : Outside → String
unfolding find_on_path
node_bin o = elim (env_set o "AGENT_BRIDGE_DSH_NODE_BIN") [
  | some explicit ↦ explicit
  | none ↦
      if o.windows
      then unwrap_or (find_on_path o ("node.exe" ∷ "node.cmd" ∷ "node.bat" ∷ [])) "node"
      else "node"
]

dsh_names : Bool → List String
dsh_names true = "dsh.exe" ∷ "dsh.com" ∷ "dsh.cmd" ∷ "dsh.bat" ∷ []
dsh_names false = "dsh" ∷ []

profile_args : Outside → List String
profile_args o =
    "--profile" ∷ setting o "AGENT_BRIDGE_DSH_PROFILE" "bridge" ∷ "--port" ∷ ui_port o ∷ []

unfoldable pub daemon_command : Outside → String → Result Command
unfolding profile_args node_bin find_on_path dsh_names
daemon_command o url = elim (env_set o "AGENT_BRIDGE_DSH_BIN") [
  | some bin ↦ ok (record { program = node_bin o; args = bin ∷ profile_args o })
  | none ↦ elim (find_on_path o (dsh_names o.windows)) [
    | some bin ↦ ok (record { program = bin; args = profile_args o })
    | none ↦
        err "dsh was not found on PATH; set AGENT_BRIDGE_DSH_BIN to the dsh JavaScript entry point"
  ]
]

abbrev pub ui_url_poll_ms : ℕ
ui_url_poll_ms = 200

unfoldable pub ui_url_wait_ms : Outside → ℕ
ui_url_wait_ms o =
    unwrap_or (and_then (o.env "AGENT_BRIDGE_DSH_UI_URL_WAIT_MS") (parse_unsigned (2 ^ 64))) 5000

unfoldable pub fresh_ui_url : Outside → ℕ → Machine → Option String
fresh_ui_url o offset m = and_then (o.log_tail m.trace offset) first_complete_ui_url

pub timed_out : Outside → ℕ → Machine → String × Machine
timed_out o budget m = (
  ui_url o (o.log_text m.trace),
  act o
      (warned (
        "no new `dsh web:` line in "
        ⧺ o.join (state_dir o "dsh") "daemon.log"
        ⧺ " within "
        ⧺ show_ℕ budget
        ⧺ " ms; using the last one"))
      0 m,
)

-- The loop of `wait_for_new_ui_url`; `none` when the fuel runs out.
unfoldable pub url_loop : ℕ → Outside → ℕ → ℕ → ℕ → Machine → Option (String × Machine)
unfolding fresh_ui_url timed_out act
url_loop zero o budget deadline offset m = none
url_loop (suc fuel) o budget deadline offset m = elim (fresh_ui_url o offset m) [
  | some url ↦ some (url, m)
  | none ↦ elim (leb deadline m.clock) [
    | true ↦ some (timed_out o budget m)
    | false ↦ url_loop fuel o budget deadline offset (act o (slept ui_url_poll_ms) ui_url_poll_ms m)
  ]
]

unfoldable pub wait_for_new_ui_url : Outside → ℕ → Machine → String × Machine
unfolding ui_url_wait_ms url_loop timed_out
wait_for_new_ui_url o offset m =
    let budget = ui_url_wait_ms o in
    unwrap_or (url_loop (suc (budget / ui_url_poll_ms + 1)) o budget (m.clock + budget) offset m)
      (timed_out o budget m)

report_url : Bool → Outside → ℕ → Machine → Value × Machine
unfolding wait_for_new_ui_url
report_url false o offset m = (object [], m)
report_url true o offset m =
    let (url, m') = wait_for_new_ui_url o offset m in (object (("uiUrl", str url) ∷ []), m')

unfoldable pub after_ready : Outside → ℕ → Bool → Machine → Value × Machine
unfolding report_url
after_ready o offset report m = report_url report o offset m

unfoldable pub daemon_fields : Outside → Machine → Value
daemon_fields o m = object (("uiUrl", str (ui_url o (o.log_text m.trace))) ∷ [])
