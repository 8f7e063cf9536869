-- ===== src/Cli/Main.antt =====
-- crates/quicview-cli/src/main.rs: `main`, from the parsed command line to the end of the command, for
-- `serve` to the start of its loop (Cli/Serve). The world is the file system with the network. The
-- clock, the formatting of a float and the version are arguments.
use quicview.Prelude.{ℕ, String, concat, List, [], ◌∷◌, Result, ok, err, panic}
use quicview.App.Config.{Config}
use quicview.App.Metrics
use quicview.App.Metrics.Snapshot.{snapshot, fmt}
use quicview.Protocol.Message.{ControlMessage}
use quicview.Transport.Mux.{Connection}
use quicview.Transport.Cert.{Rustls}
use quicview.Transport.Endpoint.{SocketAddr, Quinn}
use quicview.Cli.Control.{Json}
use quicview.Cli.Commands.{
  Command, serve, connect, extend, status, init, Cli, Line, stdout, Files, MainError, extend_line,
  config_of, init_config,
}
use quicview.Cli.Peers.{PeerError, listen, connect_remote}

-- What a command comes to: lines that are printed, the response from a host, or a listener with its
-- address.
pub data Ended : Type 0 where
  printed : List Line → Ended
  responded : ControlMessage → Ended
  listening : ℕ → SocketAddr → Ended

-- The `Box<dyn Error>` that `main` returns.
pub data Failure (M P : Type 0) : Type 0 where
  local : M → Failure M P
  peer : P → Failure M P

module _ {F S M P : Type 0} where
  -- A command's answer in the world: of the files, or of the network.
  abbrev pub of_files : S → F × Result M Line → (F × S) × Result (Failure M P) Ended
  of_files s (f, ok line) = ((f, s), ok (printed (line ∷ [])))
  of_files s (f, err e) = ((f, s), err (local e))
  of_files s (f, panic) = ((f, s), panic)

  abbrev pub of_network :
      {A : Type 0} → F → (A → Ended) → S × Result P A → (F × S) × Result (Failure M P) Ended
  of_network f ended (s, ok a) = ((f, s), ok (ended a))
  of_network f ended (s, err e) = ((f, s), err (peer e))
  of_network f ended (s, panic) = ((f, s), panic)

-- What `println!` prints for `status`.
unfoldable pub status_lines : ℕ → (ℕ → String) → String → List Line
status_lines elapsed megabytes version =
    stdout (fmt megabytes (snapshot elapsed Metrics.new))
    ∷ stdout (concat ("\nQuicView v" ∷ version ∷ []))
    ∷ []

module _ {F PathBuf IoError DeError SerError : Type 0} (files : Files F PathBuf IoError)
    (from_str : String → Result DeError Config) (to_string_pretty : Config → Result SerError String)
    (path_of : String → PathBuf) where
  module _ {S P CE WE RE J EE E B SC QS C QC : Type 0} (lib : Rustls E B SC QS C QC)
      (net : Quinn S CE WE EE QS QC) (parse : String → Result P SocketAddr) (serde : Json J)
      (streams : ℕ → Connection S CE WE RE) (meanwhile : S → S) (now elapsed : ℕ)
      (megabytes : ℕ → String) (version : String) where
    abbrev pub Outcome : Type 0
    Outcome =
        (F × S)
        × Result (Failure (MainError PathBuf IoError DeError SerError) (PeerError P CE WE RE J))
            Ended

    -- The `match` on the command.
    unfoldable pub dispatch : Command → Config → F × S → Outcome
    dispatch (serve bind) config (f, s) =
        of_network f (λ p. listening p.0 p.1) (listen lib net parse bind config s)
    dispatch (connect remote) config (f, s) =
        of_network f responded (connect_remote lib net parse serde streams meanwhile now remote s)
    dispatch (extend remote resolution) config w =
        (w, ok (printed (extend_line remote resolution ∷ [])))
    dispatch status config w = (w, ok (printed (status_lines elapsed megabytes version)))
    dispatch init config (f, s) = of_files s (init_config files from_str to_string_pretty path_of f)

    unfoldable pub main : Cli → F × S → Outcome
    main cli w = elim (config_of files from_str to_string_pretty path_of cli w.0) [
      | ok config ↦ dispatch cli.command config w
      | err e ↦ (w, err (local e))
      | panic ↦ (w, panic)
    ]
