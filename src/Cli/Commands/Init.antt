-- ===== src/Cli/Commands/Init.antt =====
-- `quicview init` and the configuration that the next start reads.
use quicview.Prelude.{◌≡◌, true, String, ok}
use quicview.App.Config.{Config}
use quicview.Cli.Commands.{Files}

-- A file system on which a write succeeds and is read back.
pub record FilesLaws {F PathBuf IoError : Type 0} (files : Files F PathBuf IoError) : Type 0 where
  pub write_ok : (p : PathBuf) (text : String) (f : F) → (files.write p text f).1 ≡ ok tt
  pub write_exists :
      (p : PathBuf) (text : String) (f : F) → files.exists p (files.write p text f).0 ≡ true
  pub write_read :
      (p : PathBuf) (text : String) (f : F)
      → files.read_to_string p (files.write p text f).0 ≡ ok text
