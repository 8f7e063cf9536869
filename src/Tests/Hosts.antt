-- ===== src/Tests/Hosts.antt =====
-- The shutdown signal, the server's loop and the commands (crates/quicview, crates/quicview-cli).
use quicview.Prelude.{
  ℕ, zero, suc, ◌+◌, ◌-◌, ◌≡◌, ◌≢◌, refl, ap, Bool, true, false, not, ◌||◌, ap₂, Option, none, some,
  String, List, [], ◌∷◌, ok, ◌==◌, eq→==, arith,
}
use quicview.App.Shutdown.{
  Watch, new, trigger, signal, wait, is_shutdown, run, triggers, subscribes, drops_signal,
}
use quicview.App.Shutdown
use quicview.App.Shutdown.Waits.{
  WatchLaws, is_ready, is_pending, is_triggered, is_dropped, wait-run,
}
use quicview.Cli.Serve.{
  Server, start, Event, accepted, ended, failing, disconnected, accepts, fails, Steps, none, then,
  on_accept, on_session_end, on_ctrl_c,
}
use quicview.Cli.Serve.Tally.{IsTallied, Steps-IsTallied}

-- A watch channel: its value, whether the sender is gone, how many receivers there are, and how often
-- a value was sent. A receiver is the count that it has seen.
record Channel : Type 0 where
  value : Bool
  is_closed : Bool
  receivers : ℕ
  version : ℕ

abbrev sent : Bool → Channel → ℕ → Channel × Bool
sent b o zero = (o, false)
sent b o (suc n) = (record o { value = b; version = o.version + 1 }, true)

abbrev answer : ℕ → Channel → Bool → Bool → Option (ℕ × Bool)
answer r o false closed = some (o.version, true)
answer r o true true = some (r, false)
answer r o true false = none

abbrev watch : Watch Channel ℕ
watch = record {
  channel = λ b. (record { value = b; is_closed = false; receivers = 1; version = 0 }, 0);
  send = λ b o. sent b o o.receivers;
  subscribe = λ o. (record o { receivers = o.receivers + 1 }, o.version);
  borrow = λ r o. o.value;
  changed = λ r o. answer r o (r == o.version) o.is_closed;
  drop_receiver = λ r o. record o { receivers = o.receivers - 1 };
  drop_sender = λ o. record o { is_closed = true };
}

sent_value : (b : Bool) (o : Channel) (n : ℕ) → n ≢ 0 → (sent b o n).0.value ≡ b
sent_value b o zero h = absurd (h refl)
sent_value b o (suc n) h = refl

sent_lost : (b : Bool) (o : Channel) (n : ℕ) → n ≡ 0 → (sent b o n).0.value ≡ o.value
sent_lost b o zero h = refl
sent_lost b o (suc n) h = absurd (omega arith)

sent_closed : (b : Bool) (o : Channel) (n : ℕ) → (sent b o n).0.is_closed ≡ o.is_closed
sent_closed b o zero = refl
sent_closed b o (suc n) = refl

sent_receivers : (b : Bool) (o : Channel) (n : ℕ) → (sent b o n).0.receivers ≡ o.receivers
sent_receivers b o zero = refl
sent_receivers b o (suc n) = refl

watch_laws : WatchLaws watch
watch_laws = record {
  value = λ o. o.value;
  closed = λ o. o.is_closed;
  receivers = λ o. o.receivers;
  seen = λ r o. r == o.version;
  channel_value = λ b. refl;
  channel_closed = λ b. refl;
  channel_receivers = λ b. refl;
  send_value = λ b o h. sent_value b o o.receivers h;
  send_lost = λ b o h. sent_lost b o o.receivers h;
  send_closed = λ b o. sent_closed b o o.receivers;
  send_receivers = λ b o. sent_receivers b o o.receivers;
  subscribe_value = λ o. refl;
  subscribe_closed = λ o. refl;
  subscribe_receivers = λ o. refl;
  drop_receiver_value = λ r o. refl;
  drop_receiver_closed = λ r o. refl;
  drop_receiver_receivers = λ r o. refl;
  drop_sender_value = λ o. refl;
  drop_sender_closed = λ o. refl;
  drop_sender_receivers = λ o. refl;
  borrow_value = λ r o. refl;
  changed_unseen =
      λ r o h. (o.version, ap (λ b. answer r o b o.is_closed) h, eq→== o.version o.version refl);
  changed_closed = λ r o h c. ap₂ (answer r o) h c;
  changed_open = λ r o h c. ap₂ (answer r o) h c;
}

-- Another task takes a signal and drops it, and then the controller is triggered.
abbrev acts : List Shutdown.Act
acts = subscribes ∷ drops_signal ∷ triggers ∷ []

wait-run_example :
    (is_ready (wait watch 2 0 (run watch acts ((new watch).0, [])).0)
      ≡ (is_triggered acts || is_dropped acts))
    × (is_pending (wait watch 2 0 (run watch acts ((new watch).0, [])).0)
        ≡ not (is_triggered acts || is_dropped acts))
    × (is_shutdown watch 0 (run watch acts ((new watch).0, [])).0 ≡ is_triggered acts)
wait-run_example = wait-run watch watch_laws acts 0 0

-- A viewer was accepted, another one too, and the session of the first failed.
abbrev events : List (Event String)
events = ended failing ∷ accepted (ok 8) ∷ accepted (ok 7) ∷ []

abbrev opened_twice : Server String
opened_twice = on_accept (ok 8) (on_accept (ok 7) start)

abbrev one_left : Server String
one_left = on_session_end failing (8 ∷ []) opened_twice

two_sessions : Steps start events one_left
unfolding on_accept start
two_sessions = then (then (then none (accepts refl)) (accepts refl)) (fails (8 ∷ []) [] 7 refl refl)

Steps-IsTallied_example : IsTallied events one_left
Steps-IsTallied_example = Steps-IsTallied events one_left two_sessions

-- Ctrl+C is pressed; the session that is left is disconnected, and then the loop ends.
abbrev interrupted_then : Server String
interrupted_then = on_ctrl_c one_left

abbrev last_left : Server String
last_left = on_session_end disconnected [] interrupted_then
