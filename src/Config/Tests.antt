-- ===== src/Config/Tests.antt =====
-- The precedence of settings at a concrete file.
use codex_bridge.Common.{◌≡◌, refl, String, none, some, false, Result, ok}
use codex_bridge.Backend.{RunArgs, no_settings}
use codex_bridge.Samples.{outside, flags}
use codex_bridge.Config.{FileConfig, FileRead, contents, load, resolve, sections_of, config_path}
use codex_bridge.Config.Precedence.{IsRead, FromFile, load-resolve}

abbrev file : FileConfig
file = record {
  codex = record { model = some "m1"; effort = none };
  dsh = record { provider = some "p"; model = none; effort = some "high" };
}

abbrev from_toml : String → Result FileConfig
from_toml text = ok file

abbrev read : String → FileRead
read path = contents "[codex]"

abbrev args : RunArgs
args = record {
  thread = none;
  cwd = none;
  prompt = some "go";
  prompt_file = none;
  sandbox = none;
  model = some "m2";
  effort = none;
  developer_instructions_file = none;
  no_wait = false;
  wait = flags;
}

loads : load from_toml read outside ≡ ok (sections_of file)
unfolding load
loads = refl

load-resolve_example :
    ((id name : String)
      → args.thread ≡ some id
      → resolve (sections_of file) name args ≡ no_settings)
    × (args.thread ≡ none
        → (f : FileConfig) × IsRead from_toml (read (config_path outside)) f
          × FromFile f args (sections_of file))
load-resolve_example = load-resolve from_toml read outside args (sections_of file) loads
