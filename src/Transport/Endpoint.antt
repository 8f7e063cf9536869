-- ===== src/Transport/Endpoint.antt =====
-- crates/quicview-transport/src/connection.rs and listener.rs: the endpoints of the two sides. The
-- endpoint of `quinn` is a parameter, on a state that is its own; an endpoint, an attempt to connect
-- and a connection are numbers. Waiting is not modelled.
pub mod Errors
pub mod Trust
use quicview.Prelude.{
  ℕ, String, Bool, true, false, Option, none, some, List, [], ◌∷◌, Result, ok, err, panic,
  if◌then◌else◌,
}
use quicview.Transport.Error.{TransportError, connection_failed, bind_failed, accept_failed, quinn}
use quicview.App.Config.{map_err}
use quicview.Transport.Mux.{try_with}
use quicview.Transport.Cert.{Rustls, SelfSignedCert, server_config, client_config}

-- An address, as a number, and a port.
pub data SocketAddr : Type 0 where
  v4 v6 : ℕ → ℕ → SocketAddr

abbrev pub is_ipv4 : SocketAddr → Bool
is_ipv4 (v4 ip port) = true
is_ipv4 (v6 ip port) = false

-- `Ipv4Addr::UNSPECIFIED` and `Ipv6Addr::UNSPECIFIED`.
abbrev pub unspecified : ℕ
unspecified = 0

pub record Quinn (S CE WE EE QS QC : Type 0) : Type 0 where
  pub client : SocketAddr → S → S × Result EE ℕ
  pub server : QS → SocketAddr → S → S × Result EE ℕ
  pub connect : ℕ → QC → SocketAddr → String → S → S × Result EE ℕ
  pub established : ℕ → S → S × Result CE ℕ
  pub accept : ℕ → S → S × Option ℕ
  pub local_addr : ℕ → S → S × Result EE SocketAddr
  pub remote_address : ℕ → S → SocketAddr
  pub close : ℕ → ℕ → String → S → S
  pub text : EE → String

pub record QuicConnection : Type 0 where
  pub endpoint : ℕ
  pub connection : ℕ

-- The address that a client binds.
unfoldable pub client_addr : SocketAddr → SocketAddr
client_addr remote = if is_ipv4 remote then v4 unspecified 0 else v6 unspecified 0

module _ {S CE WE EE E B SC QS C QC : Type 0} (lib : Rustls E B SC QS C QC)
    (net : Quinn S CE WE EE QS QC) where
  abbrev pub Outcome : Type 0 → Type 0
  Outcome A = S × Result (TransportError CE WE) A

  -- Waiting for an attempt to connect, or for an incoming one.
  unfoldable pub established : ℕ → S → Outcome ℕ
  established attempt s = try_with quinn (net.established attempt s) (λ c s1. (s1, ok c))

  unfoldable pub connect : SocketAddr → String → S → Outcome QuicConnection
  connect remote server_name s =
      try_with {F = TransportError CE WE} (λ e. e) (s, client_config CE WE lib)
        (λ config s1.
          try_with (λ e. connection_failed (net.text e)) (net.client (client_addr remote) s1)
            (λ endpoint s2.
              try_with (λ e. connection_failed (net.text e))
                (net.connect endpoint config remote server_name s2)
                (λ attempt s3.
                  try_with {F = TransportError CE WE} (λ e. e) (established attempt s3)
                    (λ c s4. (s4, ok (record { endpoint = endpoint; connection = c }))))))

  unfoldable pub remote_address : QuicConnection → S → SocketAddr
  remote_address c s = net.remote_address c.connection s

  unfoldable pub close : QuicConnection → S → S
  close c s = net.close c.connection 0 "bye" s

  -- `QuicListener`, which is its endpoint.
  unfoldable pub bind : SocketAddr → SelfSignedCert → S → Outcome ℕ
  bind addr cert s =
      try_with {F = TransportError CE WE} (λ e. e) (s, server_config CE WE lib cert)
        (λ config s1.
          try_with (λ e. bind_failed (net.text e)) (net.server config addr s1)
            (λ endpoint s2. (s2, ok endpoint)))

  -- `.ok_or_else(..)?` on what the endpoint accepts.
  unfoldable pub incoming : S × Option ℕ → Outcome ℕ
  incoming (s, none) = (s, err (accept_failed "endpoint closed"))
  incoming (s, some attempt) = established attempt s

  unfoldable pub accept : ℕ → S → Outcome ℕ
  accept listener s = incoming (net.accept listener s)

  unfoldable pub local_addr : ℕ → S → Outcome SocketAddr
  local_addr listener s =
      try_with (λ e. bind_failed (net.text e)) (net.local_addr listener s) (λ a s1. (s1, ok a))
