-- ===== src/Cli/Serve/Tally.antt =====
-- What the metrics of main.rs say of the sessions, at any moment.
use quicview.Prelude.{
  ℕ, suc, ◌+◌, ◌%◌, ◌^◌, ◌≡◌, ap, ◌∙◌, List, [], ◌∷◌, ◌++◌, length, length-append, ok, err, panic,
  arith,
}
use quicview.App.Metrics.{Metrics, connection_opened, connection_closed, record_error}
use quicview.App.Metrics
use quicview.Cli.Serve.{
  Server, handled, failing, disconnected, end_session, start, on_accept, on_session_end, on_ctrl_c,
  on_shutdown, Event, accepted, ended, interrupted, stops, Step, accepts, handles, fails,
  disconnects, interrupts, shuts, Steps, none, then,
}

length-removed :
    (xs ys : List ℕ) (x : ℕ) (zs : List ℕ)
    → zs ≡ xs ++ (x ∷ ys)
    → length zs ≡ suc (length (xs ++ ys))
length-removed xs ys x zs h =
    ap length h ∙ length-append xs (x ∷ ys) ∙ omega (arith, length-append xs ys)

module _ {E : Type 0} where
  -- How many connections the events accept, and how many sessions in them fail.
  abbrev pub accepts_in : List (Event E) → ℕ
  accepts_in [] = 0
  accepts_in (accepted (ok remote) ∷ es) = suc (accepts_in es)
  accepts_in (accepted (err e) ∷ es) = accepts_in es
  accepts_in (accepted panic ∷ es) = accepts_in es
  accepts_in (ended o ∷ es) = accepts_in es
  accepts_in (interrupted ∷ es) = accepts_in es
  accepts_in (stops ∷ es) = accepts_in es

  abbrev pub fails_in : List (Event E) → ℕ
  fails_in [] = 0
  fails_in (ended failing ∷ es) = suc (fails_in es)
  fails_in (ended handled ∷ es) = fails_in es
  fails_in (ended disconnected ∷ es) = fails_in es
  fails_in (accepted r ∷ es) = fails_in es
  fails_in (interrupted ∷ es) = fails_in es
  fails_in (stops ∷ es) = fails_in es

  abbrev pub ends_in : List (Event E) → ℕ
  ends_in [] = 0
  ends_in (ended o ∷ es) = suc (ends_in es)
  ends_in (accepted r ∷ es) = ends_in es
  ends_in (interrupted ∷ es) = ends_in es
  ends_in (stops ∷ es) = ends_in es

  abbrev pub IsTallied : List (Event E) → Server E → Type 0
  IsTallied es s =
      (s.metrics.active_connections ≡ length s.sessions % 2 ^ 64)
      × (s.metrics.total_connections ≡ accepts_in es % 2 ^ 64)
      × (s.metrics.errors ≡ fails_in es % 2 ^ 64)
      × (length s.sessions + ends_in es ≡ accepts_in es)

  Step-IsTallied :
      {e : Event E} (es : List (Event E)) {s t : Server E}
      → Step e s t
      → IsTallied es s
      → IsTallied (e ∷ es) t
  unfolding on_accept on_session_end on_ctrl_c on_shutdown end_session connection_opened
      connection_closed record_error
  Step-IsTallied es (accepts {r = ok remote} p) h = ground arith
  Step-IsTallied es (accepts {r = err e} p) h = ground arith
  Step-IsTallied es (accepts {r = panic} p) h = ground arith
  Step-IsTallied es {s = s} (handles xs ys remote p q) h =
      let n = length-removed xs ys remote s.sessions q in ground arith
  Step-IsTallied es {s = s} (fails xs ys remote p q) h =
      let n = length-removed xs ys remote s.sessions q in ground arith
  Step-IsTallied es {s = s} (disconnects xs ys remote p t q) h =
      let n = length-removed xs ys remote s.sessions q in ground arith
  Step-IsTallied es (interrupts p) h = h
  Step-IsTallied es (shuts p t) h = h

  -- After any steps of the server (viewers accepted, sessions that end, fail or are disconnected,
  -- Ctrl+C, the end of the loop) from its start: `active_connections` is the number of sessions that
  -- run, `total_connections` the number of connections accepted, `errors` the number of sessions
  -- that failed, each modulo 2^64, and every connection accepted is a session that runs or one that
  -- has ended.
  pub Steps-IsTallied : (es : List (Event E)) (s : Server E) → Steps start es s → IsTallied es s
  unfolding start Metrics.new
  Steps-IsTallied [] s none = (omega arith, omega arith, omega arith, omega arith)
  Steps-IsTallied (e ∷ es) u (then {t = t} before step) =
      Step-IsTallied es step (Steps-IsTallied es t before)
