-- ===== src/Cli/Serve.antt =====
-- crates/quicview-cli/src/main.rs: the loop of `serve` and the task that it spawns for each viewer,
-- as steps of one system. A session is its viewer's address, a number here. A waiting signal is
-- ready exactly when Ctrl+C was received, which App.Shutdown models; once the loop has ended, the
-- process ends and no task runs.
pub mod Tally
pub mod Stops
use quicview.Prelude.{ℕ, ◌≡◌, Bool, true, false, List, [], ◌∷◌, ◌++◌, Result, ok, err, panic}
use quicview.App.Metrics.{Metrics, connection_opened, connection_closed, record_error}
use quicview.App.Metrics

-- The loop: running, ended by the signal, ended by `result?`, or by a panic.
pub data Phase (E : Type 0) : Type 0 where
  serving stopped : Phase E
  failed : E → Phase E
  panicked : Phase E

pub record Server (E : Type 0) : Type 0 where
  pub metrics : Metrics
  pub sessions : List ℕ
  pub triggered : Bool
  pub phase : Phase E

-- How the two branches of the task's `select!` come out.
pub data Outcome : Type 0 where
  handled failing disconnected : Outcome

-- What the task does once one of them is ready.
unfoldable pub end_session : Outcome → Metrics → Metrics
end_session handled m = connection_closed m
end_session failing m = connection_closed (record_error m)
end_session disconnected m = connection_closed m

-- What one step of the loop or of a task does.
pub data Event (E : Type 0) : Type 0 where
  accepted : Result E ℕ → Event E
  ended : Outcome → Event E
  interrupted stops : Event E

module _ {E : Type 0} where
  unfoldable pub start : Server E
  start = record { metrics = Metrics.new; sessions = []; triggered = false; phase = serving }

  -- The first branch of the loop's `select!`.
  unfoldable pub on_accept : Result E ℕ → Server E → Server E
  on_accept (ok remote) s = record s {
    metrics = connection_opened s.metrics;
    sessions = remote ∷ s.sessions;
  }
  on_accept (err e) s = record s { phase = failed e }
  on_accept panic s = record s { phase = panicked }

  unfoldable pub on_session_end : Outcome → List ℕ → Server E → Server E
  on_session_end o rest s = record s { metrics = end_session o s.metrics; sessions = rest }

  -- The task that waits for Ctrl+C.
  unfoldable pub on_ctrl_c : Server E → Server E
  on_ctrl_c s = record s { triggered = true }

  -- The second branch of the loop's `select!`.
  unfoldable pub on_shutdown : Server E → Server E
  on_shutdown s = record s { phase = stopped }

  pub data Step : Event E → Server E → Server E → Type 0 where
    accepts :
        {r : Result E ℕ} {s : Server E} → s.phase ≡ serving → Step (accepted r) s (on_accept r s)
    handles :
        {s : Server E} (xs ys : List ℕ) (remote : ℕ)
        → s.phase ≡ serving
        → s.sessions ≡ xs ++ (remote ∷ ys)
        → Step (ended handled) s (on_session_end handled (xs ++ ys) s)
    fails :
        {s : Server E} (xs ys : List ℕ) (remote : ℕ)
        → s.phase ≡ serving
        → s.sessions ≡ xs ++ (remote ∷ ys)
        → Step (ended failing) s (on_session_end failing (xs ++ ys) s)
    disconnects :
        {s : Server E} (xs ys : List ℕ) (remote : ℕ)
        → s.phase ≡ serving
        → s.triggered ≡ true
        → s.sessions ≡ xs ++ (remote ∷ ys)
        → Step (ended disconnected) s (on_session_end disconnected (xs ++ ys) s)
    interrupts : {s : Server E} → s.phase ≡ serving → Step interrupted s (on_ctrl_c s)
    shuts : {s : Server E} → s.phase ≡ serving → s.triggered ≡ true → Step stops s (on_shutdown s)

  -- The newest event stands first.
  pub data Steps (s : Server E) : List (Event E) → Server E → Type 0 where
    none : Steps s [] s
    then :
        {e : Event E} {es : List (Event E)} {t u : Server E}
        → Steps s es t
        → Step e t u
        → Steps s (e ∷ es) u
