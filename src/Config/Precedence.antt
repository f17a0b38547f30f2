-- ===== src/Config/Precedence.antt =====
-- Where the model settings of a turn come from (`Config::resolve` of src/core/config.rs).
use codex_bridge.Common.{
  ◌≡◌, refl, sym, subst, ok_inj, ◌⧺◌, String, none, some, or_else, Result, ok, err, arith, context,
}
use codex_bridge.Host.{Outside}
use codex_bridge.Backend.{RunArgs, no_settings}
use codex_bridge.Config.{
  Config, FileConfig, FileRead, contents, not_found, unreadable, sections_of, resolve, load, loaded,
  loaded_from, config_path, no_config,
}

-- Which settings a file gives a new thread of a backend.
abbrev pub FromFile : FileConfig → RunArgs → Config → Type 0
FromFile file args config =
    (resolve config "codex" args ≡ record {
      model = or_else args.model file.codex.model;
      effort = or_else args.effort file.codex.effort;
      provider = none;
    })
    × (resolve config "dsh" args ≡ record {
      model = or_else args.model file.dsh.model;
      effort = or_else args.effort file.dsh.effort;
      provider = file.dsh.provider;
    })

sections-FromFile :
    (file : FileConfig) (args : RunArgs)
    → args.thread ≡ none
    → FromFile file args (sections_of file)
unfolding resolve sections_of
sections-FromFile file args new = rw (new, resolve) (refl, refl)

-- The file that was read, as the parser understands it; no file is an empty one.
abbrev pub IsRead : (String → Result FileConfig) → FileRead → FileConfig → Type 0
IsRead from_toml (contents text) file = from_toml text ≡ ok file
IsRead from_toml not_found file = file ≡ no_config
IsRead from_toml (unreadable e) file = ⊥

loaded-context :
    (path : String) (r : Result FileConfig) (config : Config)
    → loaded (context path r) ≡ ok config
    → (file : FileConfig) × (config ≡ sections_of file) × (r ≡ ok file)
unfolding loaded
loaded-context path (ok file) config h = (file, sym (ok_inj h), refl)
loaded-context path (err e) config h = absurd (ground arith)

loaded_from-IsRead :
    (from_toml : String → Result FileConfig) (path : String) (r : FileRead) (config : Config)
    → loaded_from from_toml path r ≡ ok config
    → (file : FileConfig) × (config ≡ sections_of file) × IsRead from_toml r file
unfolding loaded_from loaded
loaded_from-IsRead from_toml path (contents text) config h =
    loaded-context ("parsing config file " ⧺ path) (from_toml text) config h
loaded_from-IsRead from_toml path not_found config h = (no_config, sym (ok_inj h), refl)
loaded_from-IsRead from_toml path (unreadable e) config h = absurd (ground arith)

existing :
    (config : Config) (args : RunArgs) (id name : String)
    → args.thread ≡ some id
    → resolve config name args ≡ no_settings
unfolding resolve
existing config args id name e = rw (e, resolve) refl

-- A configuration that was loaded gives a new thread of each backend its own section of the parsed file, below
-- the arguments of the command line, where no file counts as an empty one; it gives nothing to a thread that exists.
pub load-resolve :
    (from_toml : String → Result FileConfig) (read : String → FileRead) (o : Outside)
    (args : RunArgs) (config : Config)
    → load from_toml read o ≡ ok config
    → ((id name : String) → args.thread ≡ some id → resolve config name args ≡ no_settings)
      × (args.thread ≡ none
          → (file : FileConfig) × IsRead from_toml (read (config_path o)) file
            × FromFile file args config)
unfolding load
load-resolve from_toml read o args config h =
    let (file, e, r) =
      loaded_from-IsRead from_toml (config_path o) (read (config_path o)) config h in
    (
      existing config args,
      λ new. (file, r, subst (FromFile file args) (sym e) (sections-FromFile file args new)),
    )
