-- ===== src/Tests/Streams.antt =====
-- Certificates and endpoints over libraries in memory (crates/quicview-transport).
use quicview.Prelude.{
  Result, ◌++◌, ◌↔◌, if◌then◌else◌, ℕ, ◌+◌, ◌*◌, ◌≡◌, refl, arith, List, [], ◌∷◌, none, String, ok,
  err,
}
use quicview.Transport.Cert.{
  SelfSignedCert, Verifier, skip_server_verification, RustlsError, general, eq_bytes, client_config,
  pinned_client_config, CertFingerprint, fingerprint_verifier, to_hex, Rustls,
}
use quicview.Transport.Cert.Hex.{from_hex, chars, to_hex-from_hex}
use quicview.Transport.Endpoint.Trust.{KeepsVerifier, Trusts, with_connect, connect-Trusts}
use quicview.Transport.Mux.{Connection}
use quicview.Transport.Endpoint.{SocketAddr, v4, Quinn, connect, bind, accept}
use quicview.Transport.Endpoint.Errors.{Returns, Connects, Binds, Accepts}
use quicview.Transport.Endpoint.Errors.Covered.{endpoints-Outcomes}

to_hex-from_hex_example :
    (from_hex (to_hex (0 ∷ 171 ∷ 15 ∷ [])) ≡ 0 ∷ 171 ∷ 15 ∷ [])
    × (chars (to_hex (0 ∷ 171 ∷ 15 ∷ [])) ≡ 2 + 3 * 2)
to_hex-from_hex_example =
    to_hex-from_hex 0 (171 ∷ 15 ∷ []) (omega arith, (omega arith, (omega arith, tt)))

three_bytes : to_hex (0 ∷ 171 ∷ 15 ∷ []) ≡ "00:ab:0f"
unfolding to_hex
three_bytes = refl

-- A digest that keeps the first byte.
abbrev digest : List ℕ → List ℕ
digest [] = 0 ∷ []
digest (b ∷ bs) = b ∷ []

abbrev cert : SelfSignedCert
cert = record { cert_der = 48 ∷ 1 ∷ []; key_der = [] }

-- Libraries whose configurations are verifiers and key pairs, and where every address is free but
-- nothing answers.
abbrev pub rustls : Rustls String (Unit {0}) (List ℕ) (List ℕ) Verifier Verifier
rustls = record {
  versions = ok tt;
  with_single_cert = λ cert1 key b. ok cert1;
  quic_server = λ c. ok c;
  with_verifier = λ v b. v;
  quic_client = λ v. ok v;
  text = λ e. e;
  generate = λ names. ok ([], []);
}

abbrev pub net : Quinn ℕ String String String (List ℕ) Verifier
net = record {
  client = λ a s. (s + 1, ok s);
  server = λ c a s. (s + 1, ok s);
  connect = λ e c a name s. (s + 1, ok s);
  established = λ a s. (s, err "timed out");
  accept = λ e s. (s, none);
  local_addr = λ e s. (s, ok (v4 0 0));
  remote_address = λ c s. v4 0 0;
  close = λ c code reason s. s;
  text = λ e. e;
}

libraries_return : Returns rustls net
libraries_return = record {
  versions = λ e. ground (arith, e);
  with_single_cert = λ cert1 key b e. ground (arith, e);
  quic_server = λ c e. ground (arith, e);
  quic_client = λ c e. ground (arith, e);
  client = λ a s e. ground (arith, e);
  server = λ c a s e. ground (arith, e);
  connect = λ endpoint c a name s e. ground (arith, e);
  established = λ attempt s e. ground (arith, e);
}

endpoints-Outcomes_example :
    Connects rustls net (v4 1 4433) "localhost" 0 (connect rustls net (v4 1 4433) "localhost" 0)
    × Binds rustls net (v4 0 4433) cert 0 (bind rustls net (v4 0 4433) cert 0)
    × Accepts rustls net 3 0 (accept rustls net 3 0)
endpoints-Outcomes_example =
    endpoints-Outcomes rustls net libraries_return (v4 1 4433) (v4 0 4433) "localhost" cert 3 0

-- A `quinn` that connects only with the configuration that checks nothing.
abbrev guarded : ℕ → Verifier → SocketAddr → String → ℕ → ℕ × Result String ℕ
guarded endpoint skip_server_verification remote name s =
    net.connect endpoint skip_server_verification remote name s
guarded endpoint (fingerprint_verifier expected) remote name s = (s, err "not this one")

guarded_skips :
    (c : Verifier) (endpoint : ℕ) (remote : SocketAddr) (name : String) (s : ℕ)
    → c ≡ skip_server_verification
    → guarded endpoint c remote name s ≡ net.connect endpoint c remote name s
guarded_skips skip_server_verification endpoint remote name s e = refl
guarded_skips (fingerprint_verifier expected) endpoint remote name s e = ground (arith, e)

rustls_keeps : KeepsVerifier rustls (λ v. v)
rustls_keeps v b c e = ground (arith, e)

-- A signature that is the message and the certificate.
abbrev signature : List ℕ → List ℕ → List ℕ → Result RustlsError (Unit {0})
signature message der dss =
    if eq_bytes (message ++ der) dss then ok tt else err (general "bad signature")

abbrev cert_print : CertFingerprint
cert_print = record { bytes = 48 ∷ [] }

plain_made : client_config String String rustls ≡ ok skip_server_verification
unfolding client_config
plain_made = refl

pinned_made :
    pinned_client_config String String rustls cert_print ≡ ok (fingerprint_verifier cert_print)
unfolding pinned_client_config
pinned_made = refl

connect-Trusts_example :
    Trusts digest signature signature skip_server_verification (49 ∷ 2 ∷ []) (7 ∷ []) []
    × (Trusts digest signature signature (fingerprint_verifier cert_print) (49 ∷ 2 ∷ []) (7 ∷ []) []
        ↔ ((digest (49 ∷ 2 ∷ []) ≡ cert_print.bytes)
            × (signature (7 ∷ []) (49 ∷ 2 ∷ []) [] ≡ ok tt)))
    × (connect rustls (with_connect net guarded) (v4 1 4433) "localhost" 0
        ≡ connect rustls net (v4 1 4433) "localhost" 0)
connect-Trusts_example =
    connect-Trusts rustls (λ v. v) rustls_keeps digest signature signature cert_print (49 ∷ 2 ∷ [])
      (7 ∷ []) [] skip_server_verification (fingerprint_verifier cert_print) net guarded (v4 1 4433)
      "localhost" 0 plain_made pinned_made guarded_skips

-- A connection whose calls all fail.
abbrev pub no_streams : ℕ → Connection ℕ String String String
no_streams c = record {
  open_bi = λ s. (s, err "closed");
  accept_bi = λ s. (s, err "closed");
  write_all = λ n bytes s. (s, err "closed");
  read_exact = λ n k s. (s, err "closed");
  drop_last = λ s. s;
  connection_text = λ e. e;
  write_text = λ e. e;
  read_text = λ e. e;
}
