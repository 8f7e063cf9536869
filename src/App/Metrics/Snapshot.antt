-- ===== src/App/Metrics/Snapshot.antt =====
-- crates/quicview/src/metrics.rs: a reading of all counters, and its text. The clock's seconds are an
-- argument, and so is the formatting of a number of megabytes, which is a division of floats.
use quicview.Prelude.{ℕ, String, concat, show, [], ◌∷◌}
use quicview.App.Metrics.{Metrics}

pub record MetricsSnapshot : Type 0 where
  pub uptime_secs : ℕ
  pub frames_sent : ℕ
  pub frames_received : ℕ
  pub bytes_sent : ℕ
  pub bytes_received : ℕ
  pub active_connections : ℕ
  pub total_connections : ℕ
  pub errors : ℕ

unfoldable pub snapshot : ℕ → Metrics → MetricsSnapshot
snapshot elapsed m = record {
  uptime_secs = elapsed;
  frames_sent = m.frames_sent;
  frames_received = m.frames_received;
  bytes_sent = m.bytes_sent;
  bytes_received = m.bytes_received;
  active_connections = m.active_connections;
  total_connections = m.total_connections;
  errors = m.errors;
}

unfoldable pub fmt : (ℕ → String) → MetricsSnapshot → String
fmt megabytes s = concat (
    "QuicView Metrics\n"
    ∷ "  uptime:             "
    ∷ show s.uptime_secs
    ∷ "s\n"
    ∷ "  frames sent:        "
    ∷ show s.frames_sent
    ∷ "\n"
    ∷ "  frames received:    "
    ∷ show s.frames_received
    ∷ "\n"
    ∷ "  bytes sent:         "
    ∷ show s.bytes_sent
    ∷ " ("
    ∷ megabytes s.bytes_sent
    ∷ " MB)\n"
    ∷ "  bytes received:     "
    ∷ show s.bytes_received
    ∷ " ("
    ∷ megabytes s.bytes_received
    ∷ " MB)\n"
    ∷ "  active connections: "
    ∷ show s.active_connections
    ∷ "\n"
    ∷ "  total connections:  "
    ∷ show s.total_connections
    ∷ "\n"
    ∷ "  errors:             "
    ∷ show s.errors
    ∷ [])
