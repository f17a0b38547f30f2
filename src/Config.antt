-- ===== src/Config.antt =====
-- src/core/config.rs: the defaults of each backend. The text of the file is read by the `toml` crate,
-- which the argument `from_toml` stands for.
pub mod Precedence
mod Tests
use codex_bridge.Common.{
  String, Option, none, some, List, [], ◌∷◌, ◌⧺◌, ◌==◌, Result, ok, err, context, and_then, or_else,
  unwrap_or, if◌then◌else◌,
}
use codex_bridge.Host.{Outside}
use codex_bridge.Paths.{env_set, home_dir}
use codex_bridge.Backend.{ModelSettings, no_settings, RunArgs}

pub record Defaults : Type 0 where
  pub model : Option String
  pub effort : Option String

pub record ProviderDefaults : Type 0 where
  pub provider : Option String
  pub model : Option String
  pub effort : Option String

pub record FileConfig : Type 0 where
  pub codex : Defaults
  pub dsh : ProviderDefaults

-- FileConfig::default
abbrev pub no_config : FileConfig
no_config = record {
  codex = record { model = none; effort = none };
  dsh = record { provider = none; model = none; effort = none };
}

pub record Config : Type 0 where
  pub sections : List (String × ModelSettings)

share_dir : Outside → Option String → Option String
share_dir o none = none
share_dir o (some home) = some (o.join (o.join home ".local") "share")

unfoldable pub config_path : Outside → String
unfolding share_dir home_dir
config_path o = elim (env_set o "AGENT_BRIDGE_CONFIG") [
  | some path ↦ path
  | none ↦
      o.join
        (o.join
          (unwrap_or (or_else (env_set o "XDG_DATA_HOME") (share_dir o (home_dir o))) o.temp_dir)
          "agent-bridge")
        "config.toml"
]

-- What reading the file comes to.
pub data FileRead : Type 0 where
  contents : String → FileRead
  not_found : FileRead
  unreadable : String → FileRead

unfoldable pub sections_of : FileConfig → Config
sections_of file = record {
  sections =
      ("codex", record { model = file.codex.model; effort = file.codex.effort; provider = none })
      ∷ (
        "dsh",
        record { model = file.dsh.model; effort = file.dsh.effort; provider = file.dsh.provider },
      )
      ∷ [];
}

loaded : Result FileConfig → Result Config
unfolding sections_of
loaded (err e) = err e
loaded (ok file) = ok (sections_of file)

-- The `match` on what reading the file comes to.
loaded_from : (String → Result FileConfig) → String → FileRead → Result Config
unfolding loaded
loaded_from from_toml path (contents text) =
    loaded (context ("parsing config file " ⧺ path) (from_toml text))
loaded_from from_toml path not_found = loaded (ok no_config)
loaded_from from_toml path (unreadable e) = err ("reading config file " ⧺ path ⧺ ": " ⧺ e)

unfoldable pub load : (String → Result FileConfig) → (String → FileRead) → Outside → Result Config
unfolding config_path loaded_from
load from_toml read o = loaded_from from_toml (config_path o) (read (config_path o))

-- HashMap::get
unfoldable pub section : String → List (String × ModelSettings) → Option ModelSettings
section k [] = none
section k ((j, s) ∷ rest) = if j == k then some s else section k rest

resolve_new : Option ModelSettings → RunArgs → ModelSettings
resolve_new defaults args = record {
  model = or_else args.model (and_then defaults (λ d. d.model));
  effort = or_else args.effort (and_then defaults (λ d. d.effort));
  provider = and_then defaults (λ d. d.provider);
}

unfoldable pub resolve : Config → String → RunArgs → ModelSettings
unfolding section resolve_new
resolve config state_name args = elim args.thread [
  | some _ ↦ no_settings
  | none ↦ resolve_new (section state_name config.sections) args
]
