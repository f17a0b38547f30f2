-- ===== src/Main/Codes.antt =====
-- The exit codes of the program (src/main.rs).
use codex_bridge.Common.{◌≡◌, ◌⊎◌, ℕ, ok}
use codex_bridge.Codex.{codex}
use codex_bridge.Codex.Wire as codex_wire
use codex_bridge.Dsh.{dsh}
use codex_bridge.Dsh.Wire as dsh_wire
use codex_bridge.Cli.{Inputs}
use codex_bridge.Cli.Codes.{IsCode}
use codex_bridge.Main.{
  Parsed, codex_command, dsh_command, usage_error, information, number_id, text_id,
}

-- The codes that the program may exit with.
abbrev pub IsExit : Inputs → Parsed → ℕ → Type 0
IsExit i (codex_command args) code = IsCode (codex args.no_pane) number_id i args.command code
IsExit i (dsh_command args) code = IsCode dsh text_id i args.command code
IsExit i usage_error code = code ≡ 4
IsExit i (information printed flushed) code =
    ((printed ≡ ok tt) × (flushed ≡ ok tt) × (code ≡ 0)) ⊎ (code ≡ 4)
