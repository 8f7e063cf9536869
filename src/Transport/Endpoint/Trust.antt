-- ===== src/Transport/Endpoint/Trust.antt =====
-- Which servers a client trusts: the verifiers of cert.rs and the one that connection.rs takes.
use quicview.Prelude.{
  ℕ, ◌≡◌, refl, ap, sym, ◌↔◌, String, List, Result, ok, err, panic, arith, ◌>>=◌,
}
use mathlib.Core.Path.{subst}
use quicview.App.Config.{map_err}
use quicview.Transport.Error.{TransportError, connection_failed}
use quicview.Transport.Mux.{try_with}
use quicview.Transport.Cert.{
  CertFingerprint, RustlsError, Verifier, skip_server_verification, fingerprint_verifier, from_der,
  verify_server_cert, verify_tls13_signature, Rustls, client_config, pinned_client_config,
  tls_error,
}
use quicview.Transport.Cert.Verify.{eq_bytes_iff}
use quicview.Transport.Endpoint.{SocketAddr, Quinn, connect, client_addr, established}

map_err_ok : {E F A : Type 0} (f : E → F) (r : Result E A) (a : A) → map_err f r ≡ ok a → r ≡ ok a
map_err_ok f (ok b) a e = ground (arith, e)
map_err_ok f (err x) a e = ground (arith, e)
map_err_ok f panic a e = ground (arith, e)

-- A configuration that the two builders made came from a builder of some versions.
built_lem :
    {E F B C : Type 0} (f : E → F) (r : Result E B) (k : B → Result E C) (c : C)
    → (map_err f r >>= (λ b. map_err f (k b))) ≡ ok c
    → (b : B) × (k b ≡ ok c)
built_lem f (ok b) k c e = (b, map_err_ok f (k b) c e)
built_lem f (err x) k c e = ground (arith, e)
built_lem f panic k c e = ground (arith, e)

-- `try_with` depends on the rest only at the value that there is.
try_with_ap :
    {S E F A B : Type 0} (f : E → F) (r : S × Result E A) (k l : A → S → S × Result F B)
    → ((a : A) (s : S) → r.1 ≡ ok a → k a s ≡ l a s)
    → try_with f r k ≡ try_with f r l
try_with_ap f (s, ok a) k l h = h a s refl
try_with_ap f (s, err e) k l h = refl
try_with_ap f (s, panic) k l h = refl

module _ (digest : List ℕ → List ℕ) {M D : Type 0}
    (tls12_signature tls13_signature : M → List ℕ → D → Result RustlsError (Unit {0})) where
  -- What a handshake of TLS 1.3 asks a verifier: the server's certificate, and its signature of the
  -- handshake.
  abbrev pub Trusts : Verifier → List ℕ → M → D → Type 0
  Trusts v der message dss =
      (verify_server_cert digest v der ≡ ok tt)
      × (verify_tls13_signature tls12_signature tls13_signature v message der dss ≡ ok tt)

  skips_lem :
      (der : List ℕ) (message : M) (dss : D) → Trusts skip_server_verification der message dss
  unfolding verify_server_cert verify_tls13_signature
  skips_lem der message dss = (refl, refl)

  accepted_iff :
      (expected : CertFingerprint) (der : List ℕ)
      → (verify_server_cert digest (fingerprint_verifier expected) der ≡ ok tt)
        ↔ (digest der ≡ expected.bytes)
  unfolding verify_server_cert from_der
  accepted_iff expected der = ground (arith, eq_bytes_iff (digest der) expected.bytes)

  pinned_iff :
      (expected : CertFingerprint) (der : List ℕ) (message : M) (dss : D)
      → Trusts (fingerprint_verifier expected) der message dss
        ↔ ((digest der ≡ expected.bytes) × (tls13_signature message der dss ≡ ok tt))
  unfolding verify_tls13_signature
  pinned_iff expected der message dss =
      let iff = accepted_iff expected der in ((λ t. (iff.0 t.0, t.1)), (λ t. (iff.1 t.0, t.1)))

-- A configuration of `quinn` keeps the verifier that it was built with.
abbrev pub KeepsVerifier :
    {E B SC QS C QC : Type 0} → Rustls E B SC QS C QC → (QC → Verifier) → Type 0
KeepsVerifier {B = B} {QC = QC} lib verifier_of =
    (v : Verifier) (b : B) (c : QC)
    → lib.quic_client (lib.with_verifier v b) ≡ ok c
    → verifier_of c ≡ v

module _ {CE WE E B SC QS C QC : Type 0} (lib : Rustls E B SC QS C QC) (verifier_of : QC → Verifier)
    (keeps : KeepsVerifier lib verifier_of) where
  plain_lem : (c : QC) → client_config CE WE lib ≡ ok c → verifier_of c ≡ skip_server_verification
  unfolding client_config
  plain_lem c e =
      let (b, made) =
        built_lem (tls_error CE WE lib) lib.versions
          (λ b. lib.quic_client (lib.with_verifier skip_server_verification b)) c e in
      keeps skip_server_verification b c made

  pinned_lem :
      (expected : CertFingerprint) (c : QC)
      → pinned_client_config CE WE lib expected ≡ ok c
      → verifier_of c ≡ fingerprint_verifier expected
  unfolding pinned_client_config
  pinned_lem expected c e =
      let (b, made) =
        built_lem (tls_error CE WE lib) lib.versions
          (λ b. lib.quic_client (lib.with_verifier (fingerprint_verifier expected) b)) c e in
      keeps (fingerprint_verifier expected) b c made

module _ {S CE WE EE QS QC : Type 0} where
  -- `quinn` with another way to connect, which differs at configurations that check a server.
  abbrev pub with_connect :
      Quinn S CE WE EE QS QC
      → (ℕ → QC → SocketAddr → String → S → S × Result EE ℕ)
      → Quinn S CE WE EE QS QC
  with_connect net other = record net { connect = other }

module _ {S CE WE EE E B SC QS C QC : Type 0} (lib : Rustls E B SC QS C QC)
    (verifier_of : QC → Verifier) (keeps : KeepsVerifier lib verifier_of) where
  connect-with_connect :
      (net : Quinn S CE WE EE QS QC) (other : ℕ → QC → SocketAddr → String → S → S × Result EE ℕ)
      → ((c : QC) (endpoint : ℕ) (remote : SocketAddr) (name : String) (s : S)
          → verifier_of c ≡ skip_server_verification
          → other endpoint c remote name s ≡ net.connect endpoint c remote name s)
      → (remote : SocketAddr) (name : String) (s : S)
      → connect lib (with_connect net other) remote name s ≡ connect lib net remote name s
  unfolding connect established
  connect-with_connect net other same remote name s =
      try_with_ap _ (s, client_config CE WE lib) _ _
        (λ config s1 made.
          try_with_ap _ (net.client (client_addr remote) s1) _ _ (λ endpoint s2 bound.
            ap
              (λ r.
                try_with (λ e. connection_failed (net.text e)) r
                  (λ attempt s3.
                    try_with {F = TransportError CE WE} (λ e. e) (established lib net attempt s3)
                      (λ c s4. (s4, ok (record { endpoint = endpoint; connection = c })))))
              (same config endpoint remote name s2
                (plain_lem {CE = CE} {WE = WE} lib verifier_of keeps config made))))

  -- Which servers the clients trust in a handshake, if a configuration of `quinn` keeps its verifier.
  -- With the plain configuration: any certificate and any signature. With the pinned one: exactly a
  -- certificate whose digest is the fingerprint, with a signature that the provider accepts. And
  -- `connect` pins nothing: it is the same over any two `quinn`s that differ only in how they connect
  -- with a configuration that checks the server.
  pub connect-Trusts :
      (digest : List ℕ → List ℕ) {M D : Type 0}
      (tls12_signature tls13_signature : M → List ℕ → D → Result RustlsError (Unit {0}))
      (expected : CertFingerprint) (der : List ℕ) (message : M) (dss : D) (plain pinned : QC)
      (net : Quinn S CE WE EE QS QC) (other : ℕ → QC → SocketAddr → String → S → S × Result EE ℕ)
      (remote : SocketAddr) (name : String) (s : S)
      → client_config CE WE lib ≡ ok plain
      → pinned_client_config CE WE lib expected ≡ ok pinned
      → ((c : QC) (endpoint : ℕ) (remote : SocketAddr) (name : String) (s : S)
          → verifier_of c ≡ skip_server_verification
          → other endpoint c remote name s ≡ net.connect endpoint c remote name s)
      → Trusts digest tls12_signature tls13_signature (verifier_of plain) der message dss
        × (Trusts digest tls12_signature tls13_signature (verifier_of pinned) der message dss
            ↔ ((digest der ≡ expected.bytes) × (tls13_signature message der dss ≡ ok tt)))
        × (connect lib (with_connect net other) remote name s ≡ connect lib net remote name s)
  connect-Trusts digest t12 t13 expected der message dss plain pinned net other remote name s e f
        same =
      let skips = plain_lem {CE = CE} {WE = WE} lib verifier_of keeps plain e in
      let pins = pinned_lem {CE = CE} {WE = WE} lib verifier_of keeps expected pinned f in
      (
        subst (λ v. Trusts digest t12 t13 v der message dss) (sym skips)
            (skips_lem digest t12 t13 der message dss),
        subst
            (λ v.
              Trusts digest t12 t13 v der message dss
              ↔ ((digest der ≡ expected.bytes) × (t13 message der dss ≡ ok tt)))
            (sym pins) (pinned_iff digest t12 t13 expected der message dss),
        connect-with_connect net other same remote name s,
      )
