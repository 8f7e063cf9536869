-- ===== src/Session/Power/Lookup.antt =====
-- What a display's state is after `touch`, `wake` and `tick`.
use mathlib.Core.Option
use quicview.Prelude.{
  ℕ, eq→==, ap, ◌∙◌, ◌-◌, ◌≤◌, ◌≡◌, refl, ◌≢◌, ◌⊎◌, inl, inr, Option, none, some, List, [], ◌∷◌,
  map, arith, ok, err, ◌==◌, if◌then◌else◌, Bool-cases,
}
use quicview.Protocol.Display.{DisplayId}
use quicview.Session.Power.{
  PowerState, active, Entry, PowerManager, activate, touch, wake, tick_entry, tick, find_state,
  state, not_registered,
}

unfoldable pub find_entry : DisplayId → List Entry → Option Entry
find_entry d [] = none
find_entry d (e ∷ es) = if e.id == d then some e else find_entry d es

abbrev pub state_of : Option Entry → Option PowerState
state_of none = none
state_of (some e) = some e.state

pub find_state_entry :
    (d : DisplayId) (es : List Entry) → find_state d es ≡ state_of (find_entry d es)
unfolding find_state find_entry
find_state_entry d [] = refl
find_state_entry d (e ∷ es) = ground (arith, find_state_entry d es)

-- What `activate` comes to, seen from the display `j`.
abbrev pub Activated : DisplayId → ℕ → List Entry → DisplayId → Type 0
Activated d now es j =
    ((find_entry d es ≡ none) × (activate d now es ≡ none))
    ⊎ ((e : Entry) × (es' : List Entry) × (find_entry d es ≡ some e)
        × (activate d now es ≡ some es')
        × (find_entry j es' ≡ (
            if d == j
            then some (record e { state = active; last_active = now })
            else find_entry j es)))

pub activate-Activated :
    (d : DisplayId) (now : ℕ) (es : List Entry) (j : DisplayId) → Activated d now es j
unfolding activate find_entry
activate-Activated d now [] j = inl (refl, refl)
activate-Activated d now (e ∷ es) j = elim (Bool-cases (e.id == d)) [
  | inl hit ↦ inr (
    e,
    record e { state = active; last_active = now } ∷ es,
    rw hit,
    rw (hit, activate),
    ground arith,
  )
  | inr miss ↦ elim (activate-Activated d now es j) [
    | inl (absent, e0) ↦ inl (rw miss absent, rw (miss, activate, e0))
    | inr (x, es', found, e1, law) ↦
        inr (x, e ∷ es', rw miss found, rw (miss, activate, e1), ground arith)
  ]
]

tick_entry-id : (timeout now : ℕ) (e : Entry) → (tick_entry timeout now e).id ≡ e.id
unfolding tick_entry
tick_entry-id timeout now e = ground arith

pub find_entry-tick :
    (timeout now : ℕ) (d : DisplayId) (es : List Entry)
    → find_entry d (map (tick_entry timeout now) es)
      ≡ Option.map (tick_entry timeout now) (find_entry d es)
unfolding find_entry
find_entry-tick timeout now d [] = refl
find_entry-tick timeout now d (e ∷ es) = elim (Bool-cases (e.id == d)) [
  | inl hit ↦ simp (tick_entry-id timeout now e, hit)
  | inr miss ↦ rw (tick_entry-id timeout now e, miss) (find_entry-tick timeout now d es)
]

-- The new state of every display, from the law of the entries.
activated_state :
    (d j : DisplayId) (now : ℕ) (e : Entry) (es es' : List Entry)
    → find_entry j es'
      ≡ (if d == j then some (record e { state = active; last_active = now }) else find_entry j es)
    → find_state j es' ≡ (if d == j then some active else find_state j es)
activated_state d j now e es es' law =
    rw (find_state_entry j es', find_state_entry j es, law)
      (elim (Bool-cases (d == j)) [ inl same ↦ rw same | inr other ↦ rw other ])

activated_self :
    (d : DisplayId) (now : ℕ) (e : Entry) (es es' : List Entry)
    → find_entry d es'
      ≡ (if d == d then some (record e { state = active; last_active = now }) else find_entry d es)
    → find_entry d es' ≡ some (record e { state = active; last_active = now })
activated_self d now e es es' law = rw (eq→== d d refl) at law

awake_entry :
    (timeout now later : ℕ) (e : Entry)
    → later - now ≤ timeout
    → state_of (some (tick_entry timeout later (record e { state = active; last_active = now })))
      ≡ some active
unfolding tick_entry
awake_entry timeout now later e soon = ground arith

-- `wake` fails, and changes nothing, exactly on a display that is not registered. On a registered
-- one it succeeds, makes that display active and leaves the state of every other display.
pub wake_lem :
    (m : PowerManager) (d j : DisplayId) (now : ℕ)
    → ((state m d ≡ none) × ((wake m d now).0 ≡ m) × ((wake m d now).1 ≡ err (not_registered d)))
      ⊎ ((state m d ≢ none)
          × ((wake m d now).1 ≡ ok tt)
          × (state (wake m d now).0 j ≡ (if d == j then some active else state m j)))
unfolding wake state
wake_lem m d j now = elim (activate-Activated d now m.states j) [
  | inl (absent, e0) ↦ inl (rw (find_state_entry d m.states, absent), rw (e0, wake), rw (e0, wake))
  | inr (e, es', found, e1, law) ↦ inr (
    rw (find_state_entry d m.states, found) (λ z. cc),
    rw (e1, wake),
    rw (e1, wake) (activated_state d j now e m.states es' law),
  )
]

-- A registered display that was touched is still active after any tick within the timeout.
touch-tick :
    (m : PowerManager) (d : DisplayId) (now later : ℕ)
    → state m d ≢ none
    → later - now ≤ m.timeout_ms
    → state (tick (touch m d now) later).0 d ≡ some active
unfolding touch state tick
touch-tick m d now later known soon = elim (activate-Activated d now m.states d) [
  | inl (absent, e0) ↦ absurd (known (rw (find_state_entry d m.states, absent)))
  | inr (e, es', found, e1, law) ↦
      rw (e1, touch)
        (find_state_entry d (map (tick_entry m.timeout_ms later) es')
          ∙ ap state_of (
              find_entry-tick m.timeout_ms later d es'
              ∙ ap (Option.map (tick_entry m.timeout_ms later))
                  (activated_self d now e m.states es' law))
          ∙ awake_entry m.timeout_ms now later e soon)
]
