-- ===== src/Paths.antt =====
-- `state_dir`, `home_dir` and `daemon_cwd` of src/core/daemon.rs, on both kinds of platform.
use codex_bridge.Common.{
  if◌then◌else◌, not, String, Option, none, some, ◌==◌, unwrap_or, keep_if, or_else,
}
use codex_bridge.Host.{Outside}

abbrev pub env_set : Outside → String → Option String
env_set o name = keep_if (λ s. not (s == "")) (o.env name)

unfoldable pub home_dir : Outside → Option String
home_dir o = env_set o (if o.windows then "USERPROFILE" else "HOME")

local_state : Outside → Option String → Option String
local_state o none = none
local_state o (some home) = some (o.join (o.join home ".local") "state")

unfoldable pub state_dir : Outside → String → String
unfolding home_dir local_state
state_dir o state_name = elim (env_set o "AGENT_BRIDGE_STATE_DIR") [
  | some explicit ↦ o.join explicit state_name
  | none ↦
      o.join
        (o.join
          (unwrap_or (or_else (env_set o "XDG_STATE_HOME") (local_state o (home_dir o))) o.temp_dir)
          "agent-bridge")
        state_name
]

unfoldable pub daemon_cwd : Outside → String → String
unfolding home_dir state_dir
daemon_cwd o state_name = unwrap_or (home_dir o) (state_dir o state_name)
