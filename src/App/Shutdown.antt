-- ===== src/App/Shutdown.antt =====
-- crates/quicview/src/shutdown.rs: the shutdown signal. The watch channel of tokio is a parameter:
-- `O` is the channel that its handles share, `R` one receiver. The controller is the only sender.
pub mod Waits
use quicview.Prelude.{ℕ, zero, suc, Bool, true, false, Option, none, some, List, [], ◌∷◌}

-- The calls of `tokio::sync::watch`. `send` tells whether it succeeded; `changed` is one poll of
-- the future: `none` while it is pending, else the receiver and whether a sender is left.
pub record Watch (O R : Type 0) : Type 0 where
  pub channel : Bool → O × R
  pub send : Bool → O → O × Bool
  pub subscribe : O → O × R
  pub borrow : R → O → Bool
  pub changed : R → O → Option (R × Bool)
  pub drop_receiver : R → O → O
  pub drop_sender : O → O

-- What a poll of `wait` gives.
pub data Poll (R : Type 0) : Type 0 where
  ready : R → Poll R
  pending : R → Poll R
  looping : Poll R

-- What the other tasks do between two polls.
pub data Act : Type 0 where
  triggers subscribes drops_signal drops_controller : Act

module _ {O R : Type 0} (w : Watch O R) where
  unfoldable pub new : O × R
  new = w.channel false

  -- The result of `send` is discarded.
  unfoldable pub trigger : O → O
  trigger o = (w.send true o).0

  unfoldable pub signal : O → O × R
  signal o = w.subscribe o

  -- `Self::new().0`: the signal that comes with it is dropped at once.
  unfoldable pub default : O
  unfolding new
  default = let (o, r) = new in w.drop_receiver r o

  -- One poll of the task: the turns of the loop that are made until the future is pending or done.
  unfoldable pub wait : ℕ → R → O → Poll R
  wait zero r o = looping
  wait (suc n) r o = elim (w.borrow r o) [
    | true ↦ ready r
    | false ↦ elim (w.changed r o) [
      | none ↦ pending r
      | some (r1, false) ↦ ready r1
      | some (r1, true) ↦ wait n r1 o
    ]
  ]

  unfoldable pub is_shutdown : R → O → Bool
  is_shutdown r o = w.borrow r o

  -- The signals that the other tasks hold stand in a list.
  unfoldable pub act : Act → O × List R → O × List R
  unfolding trigger signal
  act triggers (o, rs) = (trigger o, rs)
  act subscribes (o, rs) = let (o1, r) = signal o in (o1, r ∷ rs)
  act drops_signal (o, []) = (o, [])
  act drops_signal (o, r ∷ rs) = (w.drop_receiver r o, rs)
  act drops_controller (o, rs) = (w.drop_sender o, rs)

  unfoldable pub run : List Act → O × List R → O × List R
  unfolding act
  run [] c = c
  run (a ∷ acts) c = run acts (act a c)
