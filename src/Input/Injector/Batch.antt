-- ===== src/Input/Injector/Batch.antt =====
-- What a batch comes to.
use quicview.Prelude.{
  ◌+◌, ◌%◌, ◌^◌, ◌<◌, ◌≡◌, refl, List, [], ◌∷◌, ◌++◌, ok, err, panic, arith, length,
}
use quicview.Protocol.Input.{InputEvent}
use quicview.Input.Injector.{Inject, Answer, inject_batch, and_then, LogInjector, new, inject_log}

and_then_assoc :
    {S : Type 0} (r : Answer S) (f g h : S → Answer S)
    → ((s : S) → h s ≡ and_then (f s) g)
    → and_then r h ≡ and_then (and_then r f) g
unfolding and_then
and_then_assoc (s, ok u) f g h e = e s
and_then_assoc (s, err x) f g h e = refl
and_then_assoc (s, panic) f g h e = refl

-- For every injector, a batch of two parts comes to the first part and then, if that succeeded, the
-- second; if the first part fails, no event of the second is injected.
inject_batch-append :
    {S : Type 0} (inject : Inject S) (xs ys : List InputEvent) (s : S)
    → inject_batch inject (xs ++ ys) s
      ≡ and_then (inject_batch inject xs s) (inject_batch inject ys)
unfolding inject_batch and_then
inject_batch-append inject [] ys s = refl
inject_batch-append inject (x ∷ xs) ys s =
    and_then_assoc (inject s x) _ _ _ (inject_batch-append inject xs ys)

log_batch_from :
    (es : List InputEvent) (s : LogInjector)
    → s.events_injected < 2 ^ 64
    → inject_batch inject_log es s
      ≡ (record { events_injected = (s.events_injected + length es) % 2 ^ 64 }, ok tt)
unfolding inject_batch and_then inject_log
log_batch_from [] s h = ground arith
log_batch_from (e ∷ es) s h = ground (arith, log_batch_from es (inject_log s e).0)

-- The injector that logs takes every batch whole and counts its events, modulo 2 ^ 64.
pub log_batch :
    (es : List InputEvent)
    → inject_batch inject_log es new ≡ (record { events_injected = length es % 2 ^ 64 }, ok tt)
unfolding new
log_batch es = ground (arith, log_batch_from es new (omega arith))
