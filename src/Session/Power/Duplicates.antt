-- ===== src/Session/Power/Duplicates.antt =====
-- A display that is registered twice: only its first entry is ever touched or looked up.
use quicview.Prelude.{ℕ, ◌-◌, ◌≤◌, ◌<◌, ◌≡◌, [], ◌∷◌, some, arith}
use quicview.Protocol.Display.{DisplayId}
use quicview.Session.Power.{
  active, PowerManager, new, register, touch, tick, state, activate, find_state, tick_entry,
  newly_sleeping,
}

-- A new manager in which `d` is registered twice at `now` and touched at `used`.
registered_twice : ℕ → DisplayId → ℕ → ℕ → PowerManager
unfolding new register touch
registered_twice timeout d now used = touch (register (register (new timeout) d now) d now) d used

-- A tick within the timeout of the touch, but past that of the registrations, reports the display
-- as newly asleep while its state is active.
registered_twice_reports :
    (timeout : ℕ) (d : DisplayId) (now used later : ℕ)
    → later - used ≤ timeout
    → timeout < later - now
    → let (m, ids) = tick (registered_twice timeout d now used) later in
      (ids ≡ d ∷ []) × (state m d ≡ some active)
unfolding registered_twice touch register new tick state activate find_state tick_entry
    newly_sleeping
registered_twice_reports timeout d now used later soon late = ground arith
