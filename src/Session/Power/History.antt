-- ===== src/Session/Power/History.antt =====
-- The state of one display, from the calls of power.rs that were made.
use mathlib.Core.Option
use quicview.Prelude.{
  ℕ, ◌-◌, ◌≡◌, refl, ap, ap₂, sym, ==_iff, Option-cases, ◌∙◌, inl, inr, Option, none, some, Result,
  ok, err, List, [], ◌∷◌, ◌++◌, arith, ltb, ◌==◌, if◌then◌else◌, Bool-cases,
}
use quicview.Protocol.Display.{DisplayId}
use quicview.Session.Power.{
  PowerState, not_registered, active, sleep, waking, Entry, PowerManager, new, register, activate,
  touch, wake, tick_entry, tick, state,
}
use quicview.Session.Error.{SessionError}
use quicview.Session.Power.Lookup.{
  wake_lem, find_entry, state_of, find_state_entry, activate-Activated, find_entry-tick,
}

pub data Call : Type 0 where
  registers touches wakes : DisplayId → ℕ → Call
  ticks : ℕ → Call

unfoldable pub step : PowerManager → Call → PowerManager
step m (registers d now) = register m d now
step m (touches d now) = touch m d now
step m (wakes d now) = (wake m d now).0
step m (ticks now) = (tick m now).0

unfoldable pub run : PowerManager → List Call → PowerManager
run m [] = m
run m (c ∷ cs) = run (step m c) cs

-- One display: its state and when it was last active, once it is registered.
abbrev pub Life : Type 0
Life = Option (PowerState × ℕ)

-- It dozes off when it is active and was idle for longer than the timeout.
abbrev pub dozes : ℕ → ℕ → PowerState × ℕ → PowerState × ℕ
dozes timeout now (active, last) = (if ltb timeout (now - last) then sleep else active, last)
dozes timeout now (sleep, last) = (sleep, last)
dozes timeout now (waking, last) = (waking, last)

-- A call for another display changes nothing, and neither does registering it again.
abbrev pub lives : ℕ → DisplayId → Life → Call → Life
lives timeout d none (registers j now) = if j == d then some (active, now) else none
lives timeout d (some p) (registers j now) = some p
lives timeout d none (touches j now) = none
lives timeout d (some p) (touches j now) = if j == d then some (active, now) else some p
lives timeout d none (wakes j now) = none
lives timeout d (some p) (wakes j now) = if j == d then some (active, now) else some p
lives timeout d none (ticks now) = none
lives timeout d (some p) (ticks now) = some (dozes timeout now p)

abbrev pub lives_through : ℕ → DisplayId → Life → List Call → Life
lives_through timeout d life [] = life
lives_through timeout d life (c ∷ cs) = lives_through timeout d (lives timeout d life c) cs

abbrev view : Option Entry → Life
view none = none
view (some e) = some (e.state, e.last_active)

find_entry-append :
    (d : DisplayId) (es : List Entry) (e : Entry)
    → find_entry d (es ++ (e ∷ []))
      ≡ (elim (find_entry d es) [ none ↦ (if e.id == d then some e else none) | some x ↦ some x ])
unfolding find_entry
find_entry-append d [] e = refl
find_entry-append d (x ∷ xs) e = ground (arith, find_entry-append d xs e)

view-tick :
    (timeout now : ℕ) (d : DisplayId) (o : Option Entry)
    → view (Option.map (tick_entry timeout now) o) ≡ lives timeout d (view o) (ticks now)
unfolding tick_entry
view-tick timeout now d none = refl
view-tick timeout now d (some e) = ground arith

-- What `activate` does to one display, for `touch` and for `wake`.
activated_life :
    (timeout : ℕ) (j : DisplayId) (now : ℕ) (d : DisplayId) (o o' : Option Entry) {e : Entry}
    → (j ≡ d → o ≡ some e)
    → o' ≡ (if j == d then some (record e { state = active; last_active = now }) else o)
    → view o' ≡ lives timeout d (view o) (touches j now)
activated_life timeout j now d none o' hit law = elim (Bool-cases (j == d)) [
  | inl same ↦ let known = hit ((==_iff j d).0 same) in cc
  | inr other ↦ rw (law, other) refl
]
activated_life timeout j now d (some x) o' hit law = elim (Bool-cases (j == d)) [
  | inl same ↦ rw (law, same) refl
  | inr other ↦ rw (law, other) refl
]

unknown_life :
    (timeout : ℕ) (j : DisplayId) (now : ℕ) (d : DisplayId) (es : List Entry)
    → find_entry j es ≡ none
    → view (find_entry d es) ≡ lives timeout d (view (find_entry d es)) (touches j now)
unknown_life timeout j now d es absent = elim (Option-cases (find_entry d es)) [
  | inl e ↦ rw e refl
  | inr (x, e) ↦ elim (Bool-cases (j == d)) [
    | inl same ↦ let found = sym absent ∙ ap (λ k. find_entry k es) ((==_iff j d).0 same) ∙ e in cc
    | inr other ↦ rw (e, other) refl
  ]
]

touch_life :
    (m : PowerManager) (j : DisplayId) (now : ℕ) (d : DisplayId)
    → view (find_entry d (touch m j now).states)
      ≡ lives m.timeout_ms d (view (find_entry d m.states)) (touches j now)
unfolding touch
touch_life m j now d = elim (activate-Activated j now m.states d) [
  | inl (absent, e0) ↦ rw (e0, touch) (unknown_life m.timeout_ms j now d m.states absent)
  | inr (e, es', found, e1, law) ↦
      rw (e1, touch)
        (activated_life m.timeout_ms j now d (find_entry d m.states) (find_entry d es')
          (λ same. ap (λ k. find_entry k m.states) (sym same) ∙ found) law)
]

-- `wake` leaves the entries as `touch` does.
wake-touch : (m : PowerManager) (j : DisplayId) (now : ℕ) → (wake m j now).0 ≡ touch m j now
unfolding wake touch
wake-touch m j now = elim (Option-cases (activate j now m.states)) [
  | inl e ↦ rw (e, wake, touch) refl
  | inr (es, e) ↦ rw (e, wake, touch) refl
]

lives-wakes :
    (timeout : ℕ) (d : DisplayId) (life : Life) (j : DisplayId) (now : ℕ)
    → lives timeout d life (touches j now) ≡ lives timeout d life (wakes j now)
lives-wakes timeout d none j now = refl
lives-wakes timeout d (some p) j now = refl

register_life :
    (timeout : ℕ) (d j : DisplayId) (now : ℕ) (o : Option Entry)
    → view (elim o [
      | none ↦
          (if j == d then some (record { id = j; state = active; last_active = now }) else none)
      | some x ↦ some x
    ])
      ≡ lives timeout d (view o) (registers j now)
register_life timeout d j now none = ground arith
register_life timeout d j now (some x) = refl

step-lives :
    (m : PowerManager) (c : Call) (d : DisplayId)
    → view (find_entry d (step m c).states) ≡ lives m.timeout_ms d (view (find_entry d m.states)) c
unfolding step register tick
step-lives m (registers j now) d =
    ap view (find_entry-append d m.states _) ∙ register_life m.timeout_ms d j now _
step-lives m (touches j now) d = touch_life m j now d
step-lives m (wakes j now) d =
    ap (λ m1. view (find_entry d m1.states)) (wake-touch m j now)
    ∙ touch_life m j now d
    ∙ lives-wakes m.timeout_ms d (view (find_entry d m.states)) j now
step-lives m (ticks now) d =
    ap view (find_entry-tick m.timeout_ms now d m.states)
    ∙ view-tick m.timeout_ms now d (find_entry d m.states)

step-timeout : (m : PowerManager) (c : Call) → (step m c).timeout_ms ≡ m.timeout_ms
unfolding step register touch wake tick
step-timeout m (registers j now) = refl
step-timeout m (touches j now) = ground arith
step-timeout m (wakes j now) = ground arith
step-timeout m (ticks now) = refl

run-lives :
    (m : PowerManager) (cs : List Call) (d : DisplayId)
    → view (find_entry d (run m cs).states)
      ≡ lives_through m.timeout_ms d (view (find_entry d m.states)) cs
unfolding run
run-lives m [] d = refl
run-lives m (c ∷ cs) d =
    run-lives (step m c) cs d
    ∙ ap₂ (λ (t : ℕ) (life : Life). lives_through t d life cs) (step-timeout m c) (step-lives m c d)

state-view : (o : Option Entry) → state_of o ≡ Option.map (λ (p : PowerState × ℕ). p.0) (view o)
state-view none = refl
state-view (some e) = refl

-- What `wake` answers on a display whose state is the given one.
abbrev pub answers : DisplayId → Option PowerState → Result SessionError (Unit {0})
answers d none = err (not_registered d)
answers d (some s) = ok tt

wake-answers :
    (m : PowerManager) (d : DisplayId) (now : ℕ) → (wake m d now).1 ≡ answers d (state m d)
wake-answers m d now = elim (wake_lem m d d now) [
  | inl (absent, same, fails) ↦ fails ∙ sym (ap (answers d) absent)
  | inr (known, succeeds, after) ↦ elim (Option-cases (state m d)) [
    | inl e ↦ absurd (known e)
    | inr (s, e) ↦ succeeds ∙ sym (ap (answers d) e)
  ]
]

-- After any calls on a new manager, the state of a display is the one that its own calls and the
-- ticks give it: none until it is registered; active from then and from each `touch` and `wake` of
-- it; asleep from a tick at which it was active and idle for longer than the timeout. The calls for
-- other displays, and registering it again, have no part in it. A `wake` then fails exactly if the
-- display was never registered, with the error that names it.
pub state-run :
    (timeout : ℕ) (cs : List Call) (d : DisplayId) (now : ℕ)
    → let life = Option.map (λ (p : PowerState × ℕ). p.0) (lives_through timeout d none cs) in
      (state (run (new timeout) cs) d ≡ life)
      × ((wake (run (new timeout) cs) d now).1 ≡ answers d life)
unfolding state new find_entry
state-run timeout cs d now =
    let known =
      find_state_entry d (run (new timeout) cs).states
      ∙ state-view (find_entry d (run (new timeout) cs).states)
      ∙ ap (Option.map (λ (p : PowerState × ℕ). p.0)) (run-lives (new timeout) cs d) in
    (known, wake-answers (run (new timeout) cs) d now ∙ ap (answers d) known)
