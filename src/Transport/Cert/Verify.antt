-- ===== src/Transport/Cert/Verify.antt =====
-- Which servers a client of cert.rs accepts.
use quicview.Prelude.{
  ℕ, ◌≡◌, refl, ◌↔◌, ◌≢◌, true, List, [], ◌∷◌, ok, err, arith, Bool-cases, inl, inr, ◌⊎◌,
}
use quicview.Transport.Cert.{
  eq_bytes, fingerprint_verifier, from_der, mismatch, verify_server_cert, SelfSignedCert,
  fingerprint,
}

pub eq_bytes_iff : (bs cs : List ℕ) → (eq_bytes bs cs ≡ true) ↔ (bs ≡ cs)
unfolding eq_bytes
eq_bytes_iff [] [] = ((λ h. refl), (λ h. refl))
eq_bytes_iff [] (c ∷ cs) = ground arith
eq_bytes_iff (b ∷ bs) [] = ground arith
eq_bytes_iff (b ∷ bs) (c ∷ cs) = ground (arith, eq_bytes_iff bs cs)

module _ (digest : List ℕ → List ℕ) where
  -- A client that is pinned to the fingerprint of a server's certificate accepts a certificate with
  -- the digest of that one, and refuses any other, with an error that names both fingerprints.
  verify_server_cert-fingerprint :
      (cert : SelfSignedCert) (der : List ℕ)
      → ((digest der ≡ digest cert.cert_der)
          × (verify_server_cert digest (fingerprint_verifier (fingerprint digest cert)) der
              ≡ ok tt))
        ⊎ ((digest der ≢ digest cert.cert_der)
            × (verify_server_cert digest (fingerprint_verifier (fingerprint digest cert)) der
                ≡ err (mismatch digest (fingerprint digest cert) (from_der digest der))))
  unfolding verify_server_cert fingerprint from_der
  verify_server_cert-fingerprint cert der =
      let iff = eq_bytes_iff (digest der) (digest cert.cert_der) in
      elim (Bool-cases (eq_bytes (digest der) (digest cert.cert_der))) [
        | inl same ↦ inl (iff.0 same, rw (same, verify_server_cert) refl)
        | inr other ↦ inr (ground arith, rw (other, verify_server_cert) refl)
      ]
