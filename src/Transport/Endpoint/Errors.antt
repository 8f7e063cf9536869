-- ===== src/Transport/Endpoint/Errors.antt =====
-- What the calls of connection.rs and listener.rs come to, for each answer of the libraries.
pub mod Covered
use quicview.Prelude.{
  ℕ, List, ◌≡◌, ◌≢◌, refl, sym, ap, inl, inr, ◌⊎◌, String, Option, none, some, Result, ok, err,
  panic, Option-cases,
}
use mathlib.Core.Path.{subst}
use quicview.App.Config.{map_err}
use quicview.Transport.Error.{
  TransportError, connection_failed, tls, bind_failed, accept_failed, quinn,
}
use quicview.Transport.Mux.{try_with}
use quicview.Transport.Cert.{
  Rustls, SelfSignedCert, server_config, client_config, skip_server_verification,
}
use quicview.Transport.Endpoint.{
  SocketAddr, v4, v6, Quinn, QuicConnection, connect, bind, accept, incoming, established,
  client_addr,
}

-- An endpoint on any port of any interface, of the same kind of address.
abbrev pub any_of : SocketAddr → SocketAddr
any_of (v4 ip port) = v4 0 0
any_of (v6 ip port) = v6 0 0

-- The two results that are not a panic.
abbrev pub Answers : {S E A : Type 0} → S × Result E A → Type 0
Answers {S} {E} {A} r =
    ((s : S) × (a : A) × (r ≡ (s, ok a))) ⊎ ((s : S) × (e : E) × (r ≡ (s, err e)))

pub answers_lem : {S E A : Type 0} (r : S × Result E A) → r.1 ≢ panic → Answers r
answers_lem (s, ok a) h = inl (s, a, refl)
answers_lem (s, err e) h = inr (s, e, refl)
answers_lem (s, panic) h = absurd (h refl)

abbrev pub Results : {E A : Type 0} → Result E A → Type 0
Results {E} {A} r = ((a : A) × (r ≡ ok a)) ⊎ ((e : E) × (r ≡ err e))

pub results_lem : {E A : Type 0} (r : Result E A) → r ≢ panic → Results r
results_lem (ok a) h = inl (a, refl)
results_lem (err e) h = inr (e, refl)
results_lem panic h = absurd (h refl)

module _ {S CE WE EE E B SC QS C QC : Type 0} (lib : Rustls E B SC QS C QC)
    (net : Quinn S CE WE EE QS QC) where
  -- The libraries return from every call.
  pub record Returns : Type 0 where
    pub versions : lib.versions ≢ panic
    pub with_single_cert : (cert key : List ℕ) (b : B) → lib.with_single_cert cert key b ≢ panic
    pub quic_server : (c : SC) → lib.quic_server c ≢ panic
    pub quic_client : (c : C) → lib.quic_client c ≢ panic
    pub client : (a : SocketAddr) (s : S) → (net.client a s).1 ≢ panic
    pub server : (c : QS) (a : SocketAddr) (s : S) → (net.server c a s).1 ≢ panic
    pub connect :
        (endpoint : ℕ) (c : QC) (a : SocketAddr) (name : String) (s : S)
        → (net.connect endpoint c a name s).1 ≢ panic
    pub established : (attempt : ℕ) (s : S) → (net.established attempt s).1 ≢ panic

  abbrev pub Outcome : Type 0 → Type 0
  Outcome A = S × Result (TransportError CE WE) A

  -- How `rustls` and `quinn` make the client's configuration, or where they fail.
  pub data ClientConfigured : Result E QC → Type 0 where
    no_versions : (e : E) → lib.versions ≡ err e → ClientConfigured (err e)
    no_client :
        (b : B) (e : E)
        → lib.versions ≡ ok b
        → lib.quic_client (lib.with_verifier skip_server_verification b) ≡ err e
        → ClientConfigured (err e)
    client_made :
        (b : B) (config : QC)
        → lib.versions ≡ ok b
        → lib.quic_client (lib.with_verifier skip_server_verification b) ≡ ok config
        → ClientConfigured (ok config)

  pub data ServerConfigured (cert : SelfSignedCert) : Result E QS → Type 0 where
    no_versions : (e : E) → lib.versions ≡ err e → ServerConfigured cert (err e)
    no_cert :
        (b : B) (e : E)
        → lib.versions ≡ ok b
        → lib.with_single_cert cert.cert_der cert.key_der b ≡ err e
        → ServerConfigured cert (err e)
    no_server :
        (b : B) (c : SC) (e : E)
        → lib.versions ≡ ok b
        → lib.with_single_cert cert.cert_der cert.key_der b ≡ ok c
        → lib.quic_server c ≡ err e
        → ServerConfigured cert (err e)
    server_made :
        (b : B) (c : SC) (config : QS)
        → lib.versions ≡ ok b
        → lib.with_single_cert cert.cert_der cert.key_der b ≡ ok c
        → lib.quic_server c ≡ ok config
        → ServerConfigured cert (ok config)

  -- What `connect` comes to.
  pub data Connects (remote : SocketAddr) (name : String) (s : S)
      : Outcome QuicConnection → Type 0 where
    unconfigured :
        (e : E) → ClientConfigured (err e) → Connects remote name s (s, err (tls (lib.text e)))
    no_endpoint :
        (config : QC) (e : EE) (s1 : S)
        → ClientConfigured (ok config)
        → net.client (any_of remote) s ≡ (s1, err e)
        → Connects remote name s (s1, err (connection_failed (net.text e)))
    not_started :
        (config : QC) (endpoint : ℕ) (e : EE) (s1 s2 : S)
        → ClientConfigured (ok config)
        → net.client (any_of remote) s ≡ (s1, ok endpoint)
        → net.connect endpoint config remote name s1 ≡ (s2, err e)
        → Connects remote name s (s2, err (connection_failed (net.text e)))
    not_established :
        (config : QC) (endpoint attempt : ℕ) (e : CE) (s1 s2 s3 : S)
        → ClientConfigured (ok config)
        → net.client (any_of remote) s ≡ (s1, ok endpoint)
        → net.connect endpoint config remote name s1 ≡ (s2, ok attempt)
        → net.established attempt s2 ≡ (s3, err e)
        → Connects remote name s (s3, err (quinn e))
    connected :
        (config : QC) (endpoint attempt c : ℕ) (s1 s2 s3 : S)
        → ClientConfigured (ok config)
        → net.client (any_of remote) s ≡ (s1, ok endpoint)
        → net.connect endpoint config remote name s1 ≡ (s2, ok attempt)
        → net.established attempt s2 ≡ (s3, ok c)
        → Connects remote name s (s3, ok (record { endpoint = endpoint; connection = c }))

  -- What `bind` comes to.
  pub data Binds (addr : SocketAddr) (cert : SelfSignedCert) (s : S) : Outcome ℕ → Type 0 where
    unconfigured :
        (e : E) → ServerConfigured cert (err e) → Binds addr cert s (s, err (tls (lib.text e)))
    no_endpoint :
        (config : QS) (e : EE) (s1 : S)
        → ServerConfigured cert (ok config)
        → net.server config addr s ≡ (s1, err e)
        → Binds addr cert s (s1, err (bind_failed (net.text e)))
    bound :
        (config : QS) (endpoint : ℕ) (s1 : S)
        → ServerConfigured cert (ok config)
        → net.server config addr s ≡ (s1, ok endpoint)
        → Binds addr cert s (s1, ok endpoint)

  -- What `accept` comes to.
  pub data Accepts (listener : ℕ) (s : S) : Outcome ℕ → Type 0 where
    endpoint_closed :
        (s1 : S)
        → net.accept listener s ≡ (s1, none)
        → Accepts listener s (s1, err (accept_failed "endpoint closed"))
    not_established :
        (attempt : ℕ) (e : CE) (s1 s2 : S)
        → net.accept listener s ≡ (s1, some attempt)
        → net.established attempt s1 ≡ (s2, err e)
        → Accepts listener s (s2, err (quinn e))
    accepted :
        (attempt c : ℕ) (s1 s2 : S)
        → net.accept listener s ≡ (s1, some attempt)
        → net.established attempt s1 ≡ (s2, ok c)
        → Accepts listener s (s2, ok c)
