-- ===== src/Main/Tests.antt =====
-- The program on a command whose requests the server drops.
use codex_bridge.Common.{◌↔◌, ok, err, Result, refl, All, false, none}
use codex_bridge.Samples.{world, codec, inputs}
use codex_bridge.Cli.{status}
use codex_bridge.Main.{DshCli, dsh_command, main}
use codex_bridge.Session.Verbs.Reading.{IsReading}
use codex_bridge.Main.Reading.{main-IsReading}

abbrev arguments : DshCli
arguments = record {
  url = "ws://127.0.0.1:4500";
  log = record { log = none; no_log = false };
  command = status record { thread = "t1" };
}

main-IsReading_example : All IsReading (main codec inputs (dsh_command arguments) world).1.sent
main-IsReading_example = main-IsReading codec inputs (dsh_command arguments) world refl tt
