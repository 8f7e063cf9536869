-- ===== src/Transport/Cert.antt =====
-- crates/quicview-transport/src/cert.rs: certificates, their fingerprints, and which certificates the
-- two verifiers accept. The crates `ring`, `rcgen`, `rustls` and `quinn` are parameters.
pub mod Hex
pub mod Verify
use Prim.Native.Char.{Char}
use quicview.Prelude.{
  ℕ, zero, suc, ◌/◌, ◌%◌, Bool, true, false, ◌&&◌, String, concat, List, [], ◌∷◌, Result, ok, err,
  panic, ◌==◌, if◌then◌else◌, ◌>>=◌,
}
use quicview.App.Config.{map_err}
use quicview.Transport.Error.{TransportError, tls}

-- `CertFingerprint([u8; 32])`.
pub record CertFingerprint : Type 0 where
  pub bytes : List ℕ

abbrev pub hex_digits : List Char
hex_digits =
    "0" ∷ "1" ∷ "2" ∷ "3" ∷ "4" ∷ "5" ∷ "6" ∷ "7" ∷ "8" ∷ "9" ∷ "a" ∷ "b" ∷ "c" ∷ "d" ∷ "e" ∷ "f"
    ∷ []

abbrev pub digit_at : List Char → ℕ → Char
digit_at [] d = "0"
digit_at (c ∷ cs) zero = c
digit_at (c ∷ cs) (suc d) = digit_at cs d

-- `{b:02x}` for each byte, joined by `:`.
unfoldable pub to_hex : List ℕ → String
to_hex [] = ""
to_hex (b ∷ []) =
    String.◌∷◌ (digit_at hex_digits (b / 16)) (String.◌∷◌ (digit_at hex_digits (b % 16)) "")
to_hex (b ∷ c ∷ bs) =
    String.◌∷◌ (digit_at hex_digits (b / 16))
      (String.◌∷◌ (digit_at hex_digits (b % 16)) (String.◌∷◌ ":" (to_hex (c ∷ bs))))

-- The derived `PartialEq`.
unfoldable pub eq_bytes : List ℕ → List ℕ → Bool
eq_bytes [] [] = true
eq_bytes [] (b ∷ bs) = false
eq_bytes (a ∷ as1) [] = false
eq_bytes (a ∷ as1) (b ∷ bs) = (a == b) && eq_bytes as1 bs

-- `rustls::Error::General`.
pub data RustlsError : Type 0 where
  general : String → RustlsError

-- The two implementations of `ServerCertVerifier`.
pub data Verifier : Type 0 where
  skip_server_verification : Verifier
  fingerprint_verifier : CertFingerprint → Verifier

module _ (digest : List ℕ → List ℕ) where
  unfoldable pub from_der : List ℕ → CertFingerprint
  from_der der = record { bytes = digest der }

  abbrev pub mismatch : CertFingerprint → CertFingerprint → RustlsError
  mismatch expected actual = general (
      concat (
        "certificate fingerprint mismatch: expected "
        ∷ to_hex expected.bytes
        ∷ ", got "
        ∷ to_hex actual.bytes
        ∷ []))

  -- `verify_server_cert`; the other arguments are not used.
  unfoldable pub verify_server_cert : Verifier → List ℕ → Result RustlsError (Unit {0})
  verify_server_cert skip_server_verification end_entity = ok tt
  verify_server_cert (fingerprint_verifier expected) end_entity =
      if eq_bytes (from_der end_entity).bytes expected.bytes
      then ok tt
      else err (mismatch expected (from_der end_entity))

-- `rustls::crypto::verify_tls12_signature` and `verify_tls13_signature`, with the algorithms of the
-- provider, are the parameters.
module _ {M D : Type 0}
    (tls12_signature tls13_signature : M → List ℕ → D → Result RustlsError (Unit {0})) where
  unfoldable pub verify_tls12_signature : Verifier → M → List ℕ → D → Result RustlsError (Unit {0})
  verify_tls12_signature skip_server_verification message cert dss = ok tt
  verify_tls12_signature (fingerprint_verifier expected) message cert dss =
      tls12_signature message cert dss

  unfoldable pub verify_tls13_signature : Verifier → M → List ℕ → D → Result RustlsError (Unit {0})
  verify_tls13_signature skip_server_verification message cert dss = ok tt
  verify_tls13_signature (fingerprint_verifier expected) message cert dss =
      tls13_signature message cert dss

-- The builders: the versions, the server's certificate, the client's verifier, and the conversions
-- of quinn. Each error has a text.
pub record Rustls (E B S QS C QC : Type 0) : Type 0 where
  pub versions : Result E B
  pub with_single_cert : List ℕ → List ℕ → B → Result E S
  pub quic_server : S → Result E QS
  pub with_verifier : Verifier → B → C
  pub quic_client : C → Result E QC
  pub text : E → String
  pub generate : List String → Result E (List ℕ × List ℕ)

pub record SelfSignedCert : Type 0 where
  pub cert_der : List ℕ
  pub key_der : List ℕ

unfoldable pub fingerprint : (List ℕ → List ℕ) → SelfSignedCert → CertFingerprint
fingerprint digest cert = from_der digest cert.cert_der

module _ (CE WE : Type 0) {E B S QS C QC : Type 0} (lib : Rustls E B S QS C QC) where
  abbrev pub Made : Type 0 → Type 0
  Made A = Result (TransportError CE WE) A

  abbrev pub tls_error : E → TransportError CE WE
  tls_error e = tls (lib.text e)

  unfoldable pub generate : List String → Made SelfSignedCert
  generate names = do
    (cert, key) ← map_err tls_error (lib.generate names)
    ok (record { cert_der = cert; key_der = key })

  unfoldable pub server_config : SelfSignedCert → Made QS
  server_config cert = do
    builder ← map_err tls_error lib.versions
    config ← map_err tls_error (lib.with_single_cert cert.cert_der cert.key_der builder)
    map_err tls_error (lib.quic_server config)

  unfoldable pub client_config : Made QC
  client_config = do
    builder ← map_err tls_error lib.versions
    map_err tls_error (lib.quic_client (lib.with_verifier skip_server_verification builder))

  unfoldable pub pinned_client_config : CertFingerprint → Made QC
  pinned_client_config expected = do
    builder ← map_err tls_error lib.versions
    map_err tls_error (lib.quic_client (lib.with_verifier (fingerprint_verifier expected) builder))
