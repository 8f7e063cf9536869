-- ===== src/Transport/Endpoint/Errors/Covered.antt =====
-- Every call of connection.rs and listener.rs comes to what the libraries' answers ask for.
use quicview.Prelude.{ℕ, ◌≡◌, refl, sym, inl, inr, ◌⊎◌, String, Option, none, some, ok, err}
use mathlib.Core.Path.{subst}
use quicview.Transport.Error.{tls}
use quicview.Transport.Cert.{
  Rustls, SelfSignedCert, server_config, client_config, skip_server_verification,
}
use quicview.Transport.Endpoint.{
  SocketAddr, v4, v6, Quinn, connect, bind, accept, incoming, established, client_addr,
}
use quicview.Transport.Endpoint.Errors.{
  any_of, answers_lem, results_lem, Returns, ClientConfigured, client_made, no_client,
  ServerConfigured, no_cert, no_server, server_made, Connects, Binds, Accepts,
}

any_of_lem : (a : SocketAddr) → client_addr a ≡ any_of a
unfolding client_addr
any_of_lem (v4 ip port) = refl
any_of_lem (v6 ip port) = refl

module _ {S CE WE EE E B SC QS C QC : Type 0} (lib : Rustls E B SC QS C QC)
    (net : Quinn S CE WE EE QS QC) (returns : Returns lib net) where
  client_lem :
      ((config : QC) × (client_config CE WE lib ≡ ok config) × ClientConfigured lib net (ok config))
      ⊎ ((e : E) × (client_config CE WE lib ≡ err (tls (lib.text e)))
          × ClientConfigured lib net (err e))
  unfolding client_config
  client_lem = elim (results_lem lib.versions returns.versions) [
    | inr (e, h) ↦ inr (e, simp h, ClientConfigured.no_versions e h)
    | inl (b, h) ↦
        elim (results_lem (lib.quic_client (lib.with_verifier skip_server_verification b))
          (returns.quic_client _)) [
            | inr (e, k) ↦ inr (e, simp (h, k), no_client b e h k)
            | inl (config, k) ↦ inl (config, simp (h, k), client_made b config h k)
          ]
  ]

  server_lem :
      (cert : SelfSignedCert)
      → ((config : QS) × (server_config CE WE lib cert ≡ ok config)
          × ServerConfigured lib net cert (ok config))
        ⊎ ((e : E) × (server_config CE WE lib cert ≡ err (tls (lib.text e)))
            × ServerConfigured lib net cert (err e))
  unfolding server_config
  server_lem cert = elim (results_lem lib.versions returns.versions) [
    | inr (e, h) ↦ inr (e, simp h, ServerConfigured.no_versions e h)
    | inl (b, h) ↦
        elim (results_lem (lib.with_single_cert cert.cert_der cert.key_der b)
          (returns.with_single_cert _ _ _)) [
            | inr (e, k) ↦ inr (e, simp (h, k), no_cert b e h k)
            | inl (c, k) ↦ elim (results_lem (lib.quic_server c) (returns.quic_server c)) [
              | inr (e, l) ↦ inr (e, simp (h, k, l), no_server b c e h k l)
              | inl (config, l) ↦ inl (config, simp (h, k, l), server_made b c config h k l)
            ]
          ]
  ]

  connect-Connects :
      (remote : SocketAddr) (name : String) (s : S)
      → Connects lib net remote name s (connect lib net remote name s)
  unfolding connect established
  connect-Connects remote name s = elim client_lem [
    | inr (e, h, made) ↦
        subst (Connects lib net remote name s) (sym (simp h)) (Connects.unconfigured e made)
    | inl (config, h, made) ↦
        let a = any_of_lem remote in
        elim (answers_lem (net.client (any_of remote) s) (returns.client _ s)) [
          | inr (s1, e, k) ↦
              subst (Connects lib net remote name s) (sym (simp (h, a, k)))
                (Connects.no_endpoint config e s1 made k)
          | inl (s1, endpoint, k) ↦
              elim (answers_lem (net.connect endpoint config remote name s1)
                (returns.connect endpoint config remote name s1)) [
                  | inr (s2, e, l) ↦
                      subst (Connects lib net remote name s) (sym (simp (h, a, k, l)))
                        (Connects.not_started config endpoint e s1 s2 made k l)
                  | inl (s2, attempt, l) ↦
                      elim (answers_lem (net.established attempt s2)
                        (returns.established attempt s2)) [
                          | inr (s3, e, m) ↦
                              subst (Connects lib net remote name s) (sym (simp (h, a, k, l, m))) (
                                Connects.not_established config endpoint attempt e s1 s2 s3 made k l
                                  m)
                          | inl (s3, c, m) ↦
                              subst (Connects lib net remote name s) (sym (simp (h, a, k, l, m)))
                                (Connects.connected config endpoint attempt c s1 s2 s3 made k l m)
                        ]
                ]
        ]
  ]

  bind-Binds :
      (addr : SocketAddr) (cert : SelfSignedCert) (s : S)
      → Binds lib net addr cert s (bind lib net addr cert s)
  unfolding bind
  bind-Binds addr cert s = elim (server_lem cert) [
    | inr (e, h, made) ↦
        subst (Binds lib net addr cert s) (sym (simp h)) (Binds.unconfigured e made)
    | inl (config, h, made) ↦
        elim (answers_lem (net.server config addr s) (returns.server config addr s)) [
          | inr (s1, e, k) ↦
              subst (Binds lib net addr cert s) (sym (simp (h, k)))
                (Binds.no_endpoint config e s1 made k)
          | inl (s1, endpoint, k) ↦
              subst (Binds lib net addr cert s) (sym (simp (h, k)))
                (Binds.bound config endpoint s1 made k)
        ]
  ]

  incoming-Accepts :
      (listener : ℕ) (s : S) (r : S × Option ℕ)
      → net.accept listener s ≡ r
      → Accepts lib net listener s (incoming lib net r)
  unfolding incoming established
  incoming-Accepts listener s (s1, none) k = Accepts.endpoint_closed s1 k
  incoming-Accepts listener s (s1, some attempt) k =
      elim (answers_lem (net.established attempt s1) (returns.established attempt s1)) [
        | inr (s2, e, l) ↦
            subst (Accepts lib net listener s) (sym (simp l))
              (Accepts.not_established attempt e s1 s2 k l)
        | inl (s2, c, l) ↦
            subst (Accepts lib net listener s) (sym (simp l)) (Accepts.accepted attempt c s1 s2 k l)
      ]

  accept-Accepts : (listener : ℕ) (s : S) → Accepts lib net listener s (accept lib net listener s)
  unfolding accept
  accept-Accepts listener s = incoming-Accepts listener s (net.accept listener s) refl

  -- If the libraries return from every call, `connect`, `bind` and `accept` come to what the first
  -- failing answer asks for, with the state that it left: a `Tls` with the text of what `rustls` or
  -- the conversions of `quinn` answered, before anything is opened; a `ConnectionFailed` or a
  -- `BindFailed` with the text of what the endpoint answered; the connection's own error when it is
  -- not established; an `AcceptFailed` when the endpoint is closed. If none fails, they return the
  -- connection or the endpoint that was made, a client's on any port for its kind of address.
  pub endpoints-Outcomes :
      (remote addr : SocketAddr) (name : String) (cert : SelfSignedCert) (listener : ℕ) (s : S)
      → Connects lib net remote name s (connect lib net remote name s)
        × Binds lib net addr cert s (bind lib net addr cert s)
        × Accepts lib net listener s (accept lib net listener s)
  endpoints-Outcomes remote addr name cert listener s =
      (connect-Connects remote name s, bind-Binds addr cert s, accept-Accepts listener s)
