-- ===== src/App/Metrics/Counts.antt =====
-- The counters do not depend on the order of the calls.
use quicview.Prelude.{ℕ, suc, ◌+◌, ◌-◌, ◌%◌, ◌^◌, ◌≤◌, ◌<◌, ◌≡◌, refl, List, [], ◌∷◌, arith}
use quicview.App.Metrics.{Metrics, Call, sends, receives, opens, closes, fails, new, step, run}

-- How often a connection was opened and closed, and how many bytes were sent.
unfoldable pub opened : List Call → ℕ
opened [] = 0
opened (opens ∷ cs) = suc (opened cs)
opened (sends b ∷ cs) = opened cs
opened (receives b ∷ cs) = opened cs
opened (closes ∷ cs) = opened cs
opened (fails ∷ cs) = opened cs

unfoldable pub closed : List Call → ℕ
closed [] = 0
closed (closes ∷ cs) = suc (closed cs)
closed (sends b ∷ cs) = closed cs
closed (receives b ∷ cs) = closed cs
closed (opens ∷ cs) = closed cs
closed (fails ∷ cs) = closed cs

unfoldable pub sent_bytes : List Call → ℕ
sent_bytes [] = 0
sent_bytes (sends b ∷ cs) = b + sent_bytes cs
sent_bytes (receives b ∷ cs) = sent_bytes cs
sent_bytes (opens ∷ cs) = sent_bytes cs
sent_bytes (closes ∷ cs) = sent_bytes cs
sent_bytes (fails ∷ cs) = sent_bytes cs

abbrev Fits : Metrics → Type 0
Fits m = (m.active_connections < 2 ^ 64) × (m.total_connections < 2 ^ 64) × (m.bytes_sent < 2 ^ 64)

abbrev Counted : Metrics → Metrics → List Call → Type 0
Counted m m' cs =
    ((m'.active_connections + closed cs) % 2 ^ 64 ≡ (m.active_connections + opened cs) % 2 ^ 64)
    × (m'.total_connections ≡ (m.total_connections + opened cs) % 2 ^ 64)
    × (m'.bytes_sent ≡ (m.bytes_sent + sent_bytes cs) % 2 ^ 64)
    × (m'.active_connections < 2 ^ 64)

run-Counted : (m : Metrics) (cs : List Call) → Fits m → Counted m (run m cs) cs
unfolding run opened closed sent_bytes
run-Counted m [] h = (refl, omega arith, omega arith, h.0)
run-Counted m (sends b ∷ cs) h = ground (arith, run-Counted (step m (sends b)) cs)
run-Counted m (receives b ∷ cs) h = run-Counted (step m (receives b)) cs h
run-Counted m (opens ∷ cs) h = ground (arith, run-Counted (step m opens) cs)
run-Counted m (closes ∷ cs) h = ground (arith, run-Counted (step m closes) cs)
run-Counted m (fails ∷ cs) h = run-Counted (step m fails) cs h

-- After any calls on new counters, in whatever order, the open connections are those opened less
-- those closed, if not more were closed than opened; the connections in total and the bytes sent are
-- as many as there were, modulo 2 ^ 64.
pub run_counts :
    (cs : List Call)
    → closed cs ≤ opened cs
    → opened cs < 2 ^ 64
    → ((run new cs).active_connections ≡ opened cs - closed cs)
      × ((run new cs).total_connections ≡ opened cs)
      × ((run new cs).bytes_sent ≡ sent_bytes cs % 2 ^ 64)
unfolding new
run_counts cs h k = ground (arith, run-Counted new cs (omega arith, omega arith, omega arith))
