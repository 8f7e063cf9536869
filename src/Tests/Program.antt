-- ===== src/Tests/Program.antt =====
-- `quicview init` over a file system in memory (crates/quicview-cli).
use quicview.Prelude.{refl, Option, none, some, String, true, false, Result, ok, err}
use quicview.App.Config.{Config, default}
use quicview.Cli.Commands.{init, Files, Cli}
use quicview.Cli.Commands
use quicview.Cli.Commands.Init.{FilesLaws}

-- One file, of any name, that is there or not.
abbrev one_file : Files (Option String) String String
one_file = record {
  exists = λ p f. elim f [ none ↦ false | some text ↦ true ];
  read_to_string = λ p f. elim f [ none ↦ err "not there" | some text ↦ ok text ];
  write = λ p text f. (some text, ok tt);
}

abbrev one_file_laws : FilesLaws one_file
one_file_laws = record {
  write_ok = λ p text f. refl;
  write_exists = λ p text f. refl;
  write_read = λ p text f. refl;
}

abbrev any_toml : String → Result String Config
any_toml text = ok default

abbrev to_text : Config → Result String String
to_text config = ok "text"

abbrev path_of : String → String
path_of name = name
