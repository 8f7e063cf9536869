-- ===== src/App/Metrics.antt =====
-- crates/quicview/src/metrics.rs: counters that threads share. Each call makes one or two atomic
-- additions to separate `u64` counters, which wrap; the clock of `uptime_secs` is not modelled.
pub mod Counts
pub mod Snapshot
pub mod Threads
use quicview.Prelude.{ℕ, ◌+◌, ◌-◌, ◌%◌, ◌^◌, List, [], ◌∷◌}

pub record Metrics : Type 0 where
  pub frames_sent : ℕ
  pub frames_received : ℕ
  pub bytes_sent : ℕ
  pub bytes_received : ℕ
  pub active_connections : ℕ
  pub total_connections : ℕ
  pub errors : ℕ

unfoldable pub new : Metrics
new = record {
  frames_sent = 0;
  frames_received = 0;
  bytes_sent = 0;
  bytes_received = 0;
  active_connections = 0;
  total_connections = 0;
  errors = 0;
}

-- `AtomicU64::fetch_add` and `fetch_sub`.
abbrev pub fetch_add : ℕ → ℕ → ℕ
fetch_add n k = (n + k) % 2 ^ 64

abbrev pub fetch_sub : ℕ → ℕ → ℕ
fetch_sub n k = (n + (2 ^ 64 - k)) % 2 ^ 64

unfoldable pub record_frame_sent : Metrics → ℕ → Metrics
record_frame_sent m bytes = record m {
  frames_sent = fetch_add m.frames_sent 1;
  bytes_sent = fetch_add m.bytes_sent bytes;
}

unfoldable pub record_frame_received : Metrics → ℕ → Metrics
record_frame_received m bytes = record m {
  frames_received = fetch_add m.frames_received 1;
  bytes_received = fetch_add m.bytes_received bytes;
}

unfoldable pub connection_opened : Metrics → Metrics
connection_opened m = record m {
  active_connections = fetch_add m.active_connections 1;
  total_connections = fetch_add m.total_connections 1;
}

unfoldable pub connection_closed : Metrics → Metrics
connection_closed m = record m { active_connections = fetch_sub m.active_connections 1 }

unfoldable pub record_error : Metrics → Metrics
record_error m = record m { errors = fetch_add m.errors 1 }

-- The calls, in the order in which their additions happen.
pub data Call : Type 0 where
  sends receives : ℕ → Call
  opens closes fails : Call

unfoldable pub step : Metrics → Call → Metrics
unfolding record_frame_sent record_frame_received connection_opened connection_closed record_error
step m (sends b) = record_frame_sent m b
step m (receives b) = record_frame_received m b
step m opens = connection_opened m
step m closes = connection_closed m
step m fails = record_error m

unfoldable pub run : Metrics → List Call → Metrics
unfolding step
run m [] = m
run m (c ∷ cs) = run (step m c) cs
