-- ===== src/Input/Forwarder.antt =====
-- crates/quicview-input/src/forwarder.rs: the channel that takes a viewer's events to its session. The
-- bounded channel of tokio is a parameter: `O` is the channel, `R` its receiving half.
pub mod Receiver
use quicview.Prelude.{ℕ, Option, none, some, Result, ok, err, panic}
use quicview.Protocol.Input.{InputEvent}
use quicview.Input.Error.{InputError, channel_closed}

-- The calls of `tokio::sync::mpsc`. `channel` is `none` where it panics. `send` is one poll of the
-- call: `waiting` while the channel has no room, and else what it comes to: the event joins, or it is
-- given back since the receiver is gone.
pub data Poll (O A : Type 0) : Type 0 where
  waiting : Poll O A
  ready : O → A → Poll O A

pub record Mpsc (O R : Type 0) : Type 0 where
  pub channel : ℕ → Option (O × R)
  pub send : InputEvent → O → Poll O (Result InputEvent (Unit {0}))

pub record InputForwarder (R : Type 0) : Type 0 where
  pub rx : Option R

-- `.map_err(|_| InputError::ChannelClosed)`.
abbrev closed_error :
    {O : Type 0} → Poll O (Result InputEvent (Unit {0})) → Poll O (Result InputError (Unit {0}))
closed_error waiting = waiting
closed_error (ready o (ok u)) = ready o (ok tt)
closed_error (ready o (err e)) = ready o (err channel_closed)
closed_error (ready o panic) = ready o panic

module _ {O R : Type 0} (mpsc : Mpsc O R) where
  unfoldable pub new : ℕ → Result InputError (InputForwarder R × O)
  new capacity = elim (mpsc.channel capacity) [
    | none ↦ panic
    | some (o, r) ↦ ok (record { rx = some r }, o)
  ]

  unfoldable pub send : InputEvent → O → Poll O (Result InputError (Unit {0}))
  send event o = closed_error (mpsc.send event o)

  unfoldable pub take_receiver : InputForwarder R → InputForwarder R × Option R
  take_receiver f = (record { rx = none }, f.rx)
