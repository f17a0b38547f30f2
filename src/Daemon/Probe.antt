-- ===== src/Daemon/Probe.antt =====
-- Readiness in src/core/daemon.rs: the URL to probe, and a probe.
use codex_bridge.Common.{
  ℕ, Bool, false, String, none, some, ◌∷◌, ◌⧺◌, ◌==◌, Result, ok, err, if◌then◌else◌, is_some_and,
}
use codex_bridge.Common.Text.{split_once, before_slash, contains}
use codex_bridge.Host.{Outside, Machine, probed, act}

abbrev pub poll_ms : ℕ
poll_ms = 250

abbrev pub exit_error : ℕ
exit_error = 4

-- `ws://host:port` to `host:port`
unfoldable pub authority : String → Result String
authority url = elim (split_once "://" url) [
  | none ↦ err (url ⧺ " has no scheme")
  | some (scheme, rest) ↦
      if before_slash rest == "" then err (url ⧺ " has no host") else ok (before_slash rest)
]

unfoldable pub http_url : String → String
http_url ws_url = elim (split_once "://" ws_url) [
  | none ↦ "http://" ⧺ ws_url
  | some (scheme, rest) ↦ if scheme == "wss" then "https://" ⧺ rest else "http://" ⧺ rest
]

-- A probe of a URL without a host is not made. The answer is a status line with " 200".
unfoldable pub probe_ready : Outside → String → Machine → Bool × Machine
unfolding authority act
probe_ready o ws_url m = elim (authority ws_url) [
  | err _ ↦ (false, m)
  | ok _ ↦ (is_some_and (contains " 200") (o.probe_line (probed ∷ m.trace)), act o probed 0 m)
]
