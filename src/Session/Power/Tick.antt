-- ===== src/Session/Power/Tick.antt =====
-- What `tick` leaves behind and what it reports.
use mathlib.Core.List.{Perm, perm_middle}
use mathlib.Core.List.Perm
use quicview.Prelude.{
  ℕ, ◌≡◌, refl, inl, inr, List, [], ◌∷◌, ◌++◌, map, true, false, arith, Bool-cases,
}
use quicview.Session.Power.{
  Entry, PowerManager, is_due, is_asleep, tick_entry, newly_sleeping, tick, asleep,
  sleeping_displays,
}

due_not_asleep :
    (timeout now : ℕ) (e : Entry) → is_due timeout now e ≡ true → is_asleep e.state ≡ false
due_not_asleep timeout now e h = ground arith

asleep-tick :
    (timeout now : ℕ) (es : List Entry)
    → Perm (asleep (map (tick_entry timeout now) es)) (newly_sleeping timeout now es ++ asleep es)
unfolding asleep tick_entry newly_sleeping
asleep-tick timeout now [] = Perm.refl []
asleep-tick timeout now (e ∷ es) = elim (Bool-cases (is_due timeout now e)) [
  | inl due ↦
      rw (due, due_not_asleep timeout now e due) (Perm.cons e.id (asleep-tick timeout now es))
  | inr idle ↦ rw idle (elim (Bool-cases (is_asleep e.state)) [
    | inl down ↦ rw down (
        Perm.trans (Perm.cons e.id (asleep-tick timeout now es))
          (Perm.symm (perm_middle (newly_sleeping timeout now es) (asleep es))))
    | inr up ↦ rw up (asleep-tick timeout now es)
  ])
]

-- The displays asleep after a tick are those that it reports and those that were asleep before.
sleeping_displays-tick :
    (m : PowerManager) (now : ℕ)
    → Perm (sleeping_displays (tick m now).0) ((tick m now).1 ++ sleeping_displays m)
unfolding sleeping_displays tick
sleeping_displays-tick m now = asleep-tick m.timeout_ms now m.states
