-- ===== src/App/Config.antt =====
-- crates/quicview/src/config.rs: the configuration and its file. The file system and the `toml`
-- crate are parameters, with their error types.
use quicview.Prelude.{
  ℕ, Bool, not, String, concat, show, [], ◌∷◌, Result, ok, err, panic, ◌>>=◌, if◌then◌else◌,
}

pub record NetworkConfig : Type 0 where
  pub bind_address : String
  pub port : ℕ
  pub max_connections : ℕ
  pub keepalive_ms : ℕ

pub record DisplayConfig : Type 0 where
  pub target_fps : ℕ
  pub width : ℕ
  pub height : ℕ

pub record CodecConfig : Type 0 where
  pub target_bitrate_bps : ℕ
  pub keyframe_interval : ℕ

pub record Config : Type 0 where
  pub network : NetworkConfig
  pub display : DisplayConfig
  pub codec : CodecConfig

abbrev pub default_network : NetworkConfig
default_network = record {
  bind_address = "0.0.0.0";
  port = 4433;
  max_connections = 16;
  keepalive_ms = 5000;
}

abbrev pub default_display : DisplayConfig
default_display = record { target_fps = 60; width = 1920; height = 1080 }

abbrev pub default_codec : CodecConfig
default_codec = record { target_bitrate_bps = 50000000; keyframe_interval = 0 }

-- The derived `Default`.
abbrev pub default : Config
default = record { network = default_network; display = default_display; codec = default_codec }

unfoldable pub bind_addr : Config → String
bind_addr c = concat (c.network.bind_address ∷ ":" ∷ show c.network.port ∷ [])

-- `PathBuf`, `std::io::Error`, `toml::de::Error` and `toml::ser::Error` are the parameters.
pub data ConfigError (PathBuf IoError DeError SerError : Type 0) : Type 0 where
  io : PathBuf → IoError → ConfigError PathBuf IoError DeError SerError
  parse : DeError → ConfigError PathBuf IoError DeError SerError
  serialize : SerError → ConfigError PathBuf IoError DeError SerError

-- `Result::map_err`.
abbrev pub map_err : {E F A : Type 0} → (E → F) → Result E A → Result F A
map_err f (ok a) = ok a
map_err f (err e) = err (f e)
map_err f panic = panic

module _ {PathBuf IoError DeError SerError : Type 0} (exists : PathBuf → Bool)
    (read_to_string : PathBuf → Result IoError String) (from_str : String → Result DeError Config)
    (to_string_pretty : Config → Result SerError String) where
  unfoldable pub load : PathBuf → Result (ConfigError PathBuf IoError DeError SerError) Config
  load path =
      if not (exists path)
      then ok default
      else do content ← map_err (io path) (read_to_string path); map_err parse (from_str content)

  unfoldable pub to_toml : Config → Result (ConfigError PathBuf IoError DeError SerError) String
  to_toml c = map_err serialize (to_string_pretty c)
