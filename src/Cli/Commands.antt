-- ===== src/Cli/Commands.antt =====
-- crates/quicview-cli/src/main.rs: the command line after it is parsed, the configuration that it
-- names, and the commands that need no peer. The file system, `toml` and `Path::new` are parameters.
pub mod Init
use quicview.Prelude.{
  String, Bool, true, false, Option, none, some, concat, [], ◌∷◌, Result, ok, err, panic,
}
use quicview.App.Config.{Config, ConfigError, bind_addr, load, to_toml, map_err, default}

pub data Command : Type 0 where
  serve : Option String → Command
  connect : String → Command
  extend : String → String → Command
  status init : Command

pub record Cli : Type 0 where
  pub command : Command
  pub config : Option String

-- A line that is printed.
pub data Line : Type 0 where
  stdout stderr : String → Line

-- The file system, on a state `F`.
pub record Files (F PathBuf IoError : Type 0) : Type 0 where
  pub exists : PathBuf → F → Bool
  pub read_to_string : PathBuf → F → Result IoError String
  pub write : PathBuf → String → F → F × Result IoError (Unit {0})

-- `bind.unwrap_or_else(|| config.bind_addr())`.
unfoldable pub serve_addr : Option String → Config → String
serve_addr (some bind) config = bind
serve_addr none config = bind_addr config

unfoldable pub extend_line : String → String → Line
extend_line remote resolution = stderr (
    concat (
      "quicview extend is not yet implemented (remote=" ∷ remote ∷ ", resolution=" ∷ resolution
      ∷ ")" ∷ []))

-- What is put into the `Box<dyn Error>` of `main` here.
pub data MainError (PathBuf IoError DeError SerError : Type 0) : Type 0 where
  config_error :
      ConfigError PathBuf IoError DeError SerError → MainError PathBuf IoError DeError SerError
  io_error : IoError → MainError PathBuf IoError DeError SerError

module _ {F PathBuf IoError DeError SerError : Type 0} (files : Files F PathBuf IoError)
    (from_str : String → Result DeError Config) (to_string_pretty : Config → Result SerError String)
    (path_of : String → PathBuf) where
  abbrev pub Fallible : Type 0 → Type 0
  Fallible A = Result (MainError PathBuf IoError DeError SerError) A

  -- The configuration of `main`.
  unfoldable pub config_of : Cli → F → Fallible Config
  config_of cli f = elim cli.config [
    | some path ↦ map_err config_error (
        load (λ p. files.exists p f) (λ p. files.read_to_string p f) from_str to_string_pretty
          (path_of path))
    | none ↦ ok default
  ]

  abbrev pub toml_path : PathBuf
  toml_path = path_of "quicview.toml"

  -- After `std::fs::write`.
  unfoldable pub written : F × Result IoError (Unit {0}) → F × Fallible Line
  written (f, ok u) = (f, ok (stdout "wrote default configuration to quicview.toml"))
  written (f, err e) = (f, err (io_error e))
  written (f, panic) = (f, panic)

  unfoldable pub init_config : F → F × Fallible Line
  init_config f = elim (files.exists toml_path f) [
    | true ↦ (f, ok (stderr "quicview.toml already exists — not overwriting"))
    | false ↦
        elim (to_toml (λ p. files.exists p f) (λ p. files.read_to_string p f) from_str
          to_string_pretty default) [
            | ok toml_str ↦ written (files.write toml_path toml_str f)
            | err e ↦ (f, err (config_error e))
            | panic ↦ (f, panic)
          ]
  ]
