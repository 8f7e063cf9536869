-- ===== src/App/Shutdown/Waits.antt =====
-- When a waiting task of shutdown.rs is released.
use quicview.Prelude.{
  ◌∙◌, ℕ, suc, ◌+◌, ◌-◌, ◌≡◌, not, ◌≢◌, refl, Bool, true, false, ◌||◌, none, some, List, [], ◌∷◌,
  arith, length, inl, inr, Bool-cases,
}
use quicview.App.Shutdown.{
  Watch, Poll, ready, pending, looping, new, trigger, signal, default, wait, is_shutdown, Act,
  triggers, subscribes, drops_signal, drops_controller, act, run,
}

-- What tokio documents of the channel: the value, whether the sender is gone, how many receivers
-- there are, and whether a receiver has seen the newest value. A `send` with no receiver fails and
-- leaves the value.
pub record WatchLaws {O R : Type 0} (w : Watch O R) : Type 0 where
  pub value : O → Bool
  pub closed : O → Bool
  pub receivers : O → ℕ
  pub seen : R → O → Bool
  pub channel_value : (b : Bool) → value (w.channel b).0 ≡ b
  pub channel_closed : (b : Bool) → closed (w.channel b).0 ≡ false
  pub channel_receivers : (b : Bool) → receivers (w.channel b).0 ≡ 1
  pub send_value : (b : Bool) (o : O) → receivers o ≢ 0 → value (w.send b o).0 ≡ b
  pub send_lost : (b : Bool) (o : O) → receivers o ≡ 0 → value (w.send b o).0 ≡ value o
  pub send_closed : (b : Bool) (o : O) → closed (w.send b o).0 ≡ closed o
  pub send_receivers : (b : Bool) (o : O) → receivers (w.send b o).0 ≡ receivers o
  pub subscribe_value : (o : O) → value (w.subscribe o).0 ≡ value o
  pub subscribe_closed : (o : O) → closed (w.subscribe o).0 ≡ closed o
  pub subscribe_receivers : (o : O) → receivers (w.subscribe o).0 ≡ receivers o + 1
  pub drop_receiver_value : (r : R) (o : O) → value (w.drop_receiver r o) ≡ value o
  pub drop_receiver_closed : (r : R) (o : O) → closed (w.drop_receiver r o) ≡ closed o
  pub drop_receiver_receivers : (r : R) (o : O) → receivers (w.drop_receiver r o) ≡ receivers o - 1
  pub drop_sender_value : (o : O) → value (w.drop_sender o) ≡ value o
  pub drop_sender_closed : (o : O) → closed (w.drop_sender o) ≡ true
  pub drop_sender_receivers : (o : O) → receivers (w.drop_sender o) ≡ receivers o
  pub borrow_value : (r : R) (o : O) → w.borrow r o ≡ value o
  pub changed_unseen :
      (r : R) (o : O)
      → seen r o ≡ false
      → (r1 : R) × (w.changed r o ≡ some (r1, true)) × (seen r1 o ≡ true)
  pub changed_closed :
      (r : R) (o : O) → seen r o ≡ true → closed o ≡ true → w.changed r o ≡ some (r, false)
  pub changed_open : (r : R) (o : O) → seen r o ≡ true → closed o ≡ false → w.changed r o ≡ none

-- What the acts of the other tasks amount to.
abbrev pub is_triggered : List Act → Bool
is_triggered [] = false
is_triggered (triggers ∷ acts) = true
is_triggered (subscribes ∷ acts) = is_triggered acts
is_triggered (drops_signal ∷ acts) = is_triggered acts
is_triggered (drops_controller ∷ acts) = is_triggered acts

abbrev pub is_dropped : List Act → Bool
is_dropped [] = false
is_dropped (drops_controller ∷ acts) = true
is_dropped (triggers ∷ acts) = is_dropped acts
is_dropped (subscribes ∷ acts) = is_dropped acts
is_dropped (drops_signal ∷ acts) = is_dropped acts

abbrev pub is_ready : {R : Type 0} → Poll R → Bool
is_ready (ready r) = true
is_ready (pending r) = false
is_ready looping = false

abbrev pub is_pending : {R : Type 0} → Poll R → Bool
is_pending (ready r) = false
is_pending (pending r) = true
is_pending looping = false

module _ {O R : Type 0} (w : Watch O R) (l : WatchLaws w) where
  wait_seen :
      (n : ℕ) (r : R) (o : O)
      → l.value o ≡ false
      → l.seen r o ≡ true
      → (is_ready (wait w (suc n) r o) ≡ l.closed o)
        × (is_pending (wait w (suc n) r o) ≡ not (l.closed o))
  unfolding wait
  wait_seen n r o v seen = elim (Bool-cases (l.closed o)) [
    | inl c ↦ rw (wait, l.borrow_value r o, v, l.changed_closed r o seen c, c) (refl, refl)
    | inr c ↦ rw (wait, l.borrow_value r o, v, l.changed_open r o seen c, c) (refl, refl)
  ]

  -- Two turns of the loop are enough for a poll.
  wait_step :
      (n : ℕ) (r : R) (o : O)
      → (is_ready (wait w (suc (suc n)) r o) ≡ (l.value o || l.closed o))
        × (is_pending (wait w (suc (suc n)) r o) ≡ not (l.value o || l.closed o))
  unfolding wait
  wait_step n r o = elim (Bool-cases (l.value o)) [
    | inl v ↦ rw (wait, l.borrow_value r o, v) (refl, refl)
    | inr v ↦ elim (Bool-cases (l.seen r o)) [
      | inl seen ↦ rw v (wait_seen (suc n) r o v seen)
      | inr unseen ↦
          let (r1, changes, seen) = l.changed_unseen r o unseen in
          rw (wait, l.borrow_value r o, v, changes) (wait_seen n r1 o v seen)
    ]
  ]

  -- The channel after any acts of the others, while one more receiver is held.
  run_lem :
      (acts : List Act) (o : O) (rs : List R)
      → l.receivers o ≡ suc (length rs)
      → (l.value (run w acts (o, rs)).0 ≡ (l.value o || is_triggered acts))
        × (l.closed (run w acts (o, rs)).0 ≡ (l.closed o || is_dropped acts))
  unfolding run act trigger signal
  run_lem [] o rs h = ground arith
  run_lem (triggers ∷ acts) o rs h =
      let v = l.send_value true o (ground arith) in
      let c = l.send_closed true o in
      let ih = run_lem acts (w.send true o).0 rs (l.send_receivers true o ∙ h) in ground arith
  run_lem (subscribes ∷ acts) o rs h =
      let v = l.subscribe_value o in
      let c = l.subscribe_closed o in
      let n = l.subscribe_receivers o in
      let ih = run_lem acts (w.subscribe o).0 ((w.subscribe o).1 ∷ rs) (ground arith) in
      ground arith
  run_lem (drops_signal ∷ acts) o [] h = run_lem acts o [] h
  run_lem (drops_signal ∷ acts) o (r ∷ rs) h =
      let v = l.drop_receiver_value r o in
      let c = l.drop_receiver_closed r o in
      let n = l.drop_receiver_receivers r o in
      let ih = run_lem acts (w.drop_receiver r o) rs (ground arith) in ground arith
  run_lem (drops_controller ∷ acts) o rs h =
      let v = l.drop_sender_value o in
      let c = l.drop_sender_closed o in
      let ih = run_lem acts (w.drop_sender o) rs (l.drop_sender_receivers o ∙ h) in ground arith

  -- Started by `new`, with any acts of the other tasks (the controller triggered or dropped, other
  -- signals taken and dropped) while one signal is held: a poll of `wait` on that signal ends, in
  -- at most two turns of its loop; it is ready if the controller was triggered or dropped, and
  -- pending otherwise; and `is_shutdown` holds if and only if the controller was triggered.
  pub wait-run :
      (acts : List Act) (r : R) (n : ℕ)
      → (is_ready (wait w (2 + n) r (run w acts ((new w).0, [])).0)
          ≡ (is_triggered acts || is_dropped acts))
        × (is_pending (wait w (2 + n) r (run w acts ((new w).0, [])).0)
            ≡ not (is_triggered acts || is_dropped acts))
        × (is_shutdown w r (run w acts ((new w).0, [])).0 ≡ is_triggered acts)
  unfolding new is_shutdown
  wait-run acts r n =
      let v = l.channel_value false in
      let c = l.channel_closed false in
      let ran = run_lem acts (w.channel false).0 [] (l.channel_receivers false) in
      let o = (run w acts ((w.channel false).0, [])).0 in
      let polled = wait_step n r o in let b = l.borrow_value r o in ground arith

  -- A shutdown that is requested while no signal is held is lost, since the channel keeps its value
  -- when nothing receives: after `ShutdownController::default`, `trigger` and `signal`, the signal
  -- says that no shutdown was requested, and a poll of its `wait` is pending.
  trigger_without_signal :
      (is_shutdown w (signal w (trigger w (default w))).1 (signal w (trigger w (default w))).0
        ≡ false)
      × (is_pending
            (wait w 2 (signal w (trigger w (default w))).1 (signal w (trigger w (default w))).0)
          ≡ true)
  unfolding new is_shutdown signal trigger default
  trigger_without_signal =
      let (o0, r0) = w.channel false in
      let v0 = l.channel_value false in
      let c0 = l.channel_closed false in
      let n0 = l.channel_receivers false in
      let v1 = l.drop_receiver_value r0 o0 in
      let c1 = l.drop_receiver_closed r0 o0 in
      let n1 = l.drop_receiver_receivers r0 o0 in
      let o1 = w.drop_receiver r0 o0 in
      let v2 = l.send_lost true o1 (ground arith) in
      let c2 = l.send_closed true o1 in
      let o2 = (w.send true o1).0 in
      let v3 = l.subscribe_value o2 in
      let c3 = l.subscribe_closed o2 in
      let (o3, r3) = w.subscribe o2 in
      let b = l.borrow_value r3 o3 in let polled = wait_step 0 r3 o3 in ground arith
