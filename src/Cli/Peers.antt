-- ===== src/Cli/Peers.antt =====
-- crates/quicview-cli/src/main.rs: what `serve` does before its loop, and the whole of `connect`. The
-- parsing of an address is a parameter, and so is what the peer does while the viewer waits for its
-- response.
use quicview.Prelude.{ℕ, String, Option, [], ◌∷◌, Result, ok}
use quicview.App.Config.{Config}
use quicview.Protocol.Message.{ControlMessage}
use quicview.Transport.Error.{TransportError}
use quicview.Transport.Mux.{Connection, try_with}
use quicview.Transport.Cert.{Rustls, generate}
use quicview.Transport.Endpoint.{SocketAddr, Quinn, connect, close, bind, local_addr}
use quicview.Cli.Control.{Json, SessionError, send_ping, receive_response}
use quicview.Cli.Commands.{serve_addr}

-- What the two commands put into a `Box<dyn Error>`.
pub data PeerError (P CE WE RE J : Type 0) : Type 0 where
  not_parsed : P → PeerError P CE WE RE J
  transport : TransportError CE WE → PeerError P CE WE RE J
  session : SessionError CE WE RE J → PeerError P CE WE RE J

module _ {S P CE WE RE J EE E B SC QS C QC : Type 0} (lib : Rustls E B SC QS C QC)
    (net : Quinn S CE WE EE QS QC) (parse : String → Result P SocketAddr) where
  -- `serve` before its loop: the listener and the address that it has got.
  unfoldable pub listen :
      Option String → Config → S → S × Result (PeerError P CE WE RE J) (ℕ × SocketAddr)
  listen bind_arg config s =
      try_with not_parsed (s, parse (serve_addr bind_arg config))
        (λ addr s1.
          try_with transport (s1, generate CE WE lib ("localhost" ∷ []))
            (λ cert s2. try_with transport (bind lib net addr cert s2) (λ listener s3.
              try_with transport (local_addr lib net listener s3)
                (λ local s4. (s4, ok (listener, local))))))

  module _ (serde : Json J) (streams : ℕ → Connection S CE WE RE) (peer : S → S) where
    unfoldable pub connect_remote :
        ℕ → String → S → S × Result (PeerError P CE WE RE J) ControlMessage
    connect_remote now remote s =
        try_with not_parsed (s, parse remote)
          (λ addr s1. try_with transport (connect lib net addr "localhost" s1) (λ conn s2.
            try_with session (send_ping serde (streams conn.connection) now s2) (λ stream s3.
              try_with session (receive_response serde (streams conn.connection) stream (peer s3))
                (λ msg s4. (close lib net conn s4, ok msg)))))
