-- ===== src/Input/Injector.antt =====
-- crates/quicview-input/src/injector.rs: injecting events one by one and in batches. The log line of
-- the injector that logs is not modelled; its `u64` counter wraps.
pub mod Batch
use quicview.Prelude.{ℕ, ◌+◌, ◌%◌, ◌^◌, List, [], ◌∷◌, Result, ok, err, panic}
use quicview.Protocol.Input.{InputEvent}
use quicview.Input.Error.{InputError}

-- `InputInjector`: the state and `inject`, which every implementation has.
abbrev pub Inject : Type 0 → Type 0
Inject S = S → InputEvent → S × Result InputError (Unit {0})

abbrev pub Answer : Type 0 → Type 0
Answer S = S × Result InputError (Unit {0})

-- `?` in the loop: it goes on after `Ok` and returns otherwise.
unfoldable pub and_then : {S : Type 0} → Answer S → (S → Answer S) → Answer S
and_then (s, ok u) rest = rest s
and_then (s, err e) rest = (s, err e)
and_then (s, panic) rest = (s, panic)

-- The default `inject_batch`.
unfoldable pub inject_batch : {S : Type 0} → Inject S → List InputEvent → S → Answer S
unfolding and_then
inject_batch inject [] s = (s, ok tt)
inject_batch inject (e ∷ es) s = and_then (inject s e) (λ s'. inject_batch inject es s')

pub record LogInjector : Type 0 where
  pub events_injected : ℕ

unfoldable pub new : LogInjector
new = record { events_injected = 0 }

unfoldable pub inject_log : Inject LogInjector
inject_log s event = (record { events_injected = (s.events_injected + 1) % 2 ^ 64 }, ok tt)
