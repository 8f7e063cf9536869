-- ===== src/Session/Power.antt =====
-- crates/quicview-session/src/power.rs: sleep and wake of virtual displays.
pub mod Lookup
pub mod Tick
pub mod Duplicates
pub mod History
use quicview.Prelude.{
  ℕ, ◌-◌, Option, none, some, List, [], ◌∷◌, ◌++◌, map, Bool, true, false, ◌&&◌, String, concat,
  Result, ok, err, ltb, ◌==◌, if◌then◌else◌,
}
use quicview.Protocol.Display.{DisplayId, display_id_text}
use quicview.Session.Error.{SessionError, negotiation_failed}

pub data PowerState : Type 0 where
  active sleep waking : PowerState

-- One `(id, state, last_active_ms)`.
pub record Entry : Type 0 where
  pub id : DisplayId
  pub state : PowerState
  pub last_active : ℕ

pub record PowerManager : Type 0 where
  pub timeout_ms : ℕ
  pub states : List Entry

unfoldable pub new : ℕ → PowerManager
new timeout = record { timeout_ms = timeout; states = [] }

unfoldable pub register : PowerManager → DisplayId → ℕ → PowerManager
register m display_id now = record m {
  states = m.states ++ (record { id = display_id; state = active; last_active = now } ∷ []);
}

-- The loop that `touch` and `wake` share: the first entry with the id is made active, and the loop
-- returns; `none` if it runs through.
unfoldable pub activate : DisplayId → ℕ → List Entry → Option (List Entry)
activate d now [] = none
activate d now (e ∷ es) = elim (e.id == d) [
  | true ↦ some (record e { state = active; last_active = now } ∷ es)
  | false ↦ elim (activate d now es) [ none ↦ none | some es' ↦ some (e ∷ es') ]
]

unfoldable pub touch : PowerManager → DisplayId → ℕ → PowerManager
unfolding activate
touch m d now = elim (activate d now m.states) [ none ↦ m | some es ↦ record m { states = es } ]

abbrev pub not_registered : DisplayId → SessionError
not_registered d =
    negotiation_failed
      (concat ("display " ∷ display_id_text d ∷ " not registered for power management" ∷ []))

unfoldable pub wake : PowerManager → DisplayId → ℕ → PowerManager × Result SessionError (Unit {0})
unfolding activate
wake m d now = elim (activate d now m.states) [
  | none ↦ (m, err (not_registered d))
  | some es ↦ (record m { states = es }, ok tt)
]

abbrev pub is_active : PowerState → Bool
is_active active = true
is_active sleep = false
is_active waking = false

abbrev pub is_asleep : PowerState → Bool
is_asleep active = false
is_asleep sleep = true
is_asleep waking = false

-- The test of `tick`.
abbrev pub is_due : ℕ → ℕ → Entry → Bool
is_due timeout now e = is_active e.state && ltb timeout (now - e.last_active)

unfoldable pub tick_entry : ℕ → ℕ → Entry → Entry
tick_entry timeout now e = if is_due timeout now e then record e { state = sleep } else e

unfoldable pub newly_sleeping : ℕ → ℕ → List Entry → List DisplayId
newly_sleeping timeout now [] = []
newly_sleeping timeout now (e ∷ es) =
    let rest = newly_sleeping timeout now es in if is_due timeout now e then e.id ∷ rest else rest

-- The manager after the loop, and the ids that it pushed.
unfoldable pub tick : PowerManager → ℕ → PowerManager × List DisplayId
unfolding tick_entry newly_sleeping
tick m now = (
  record m { states = map (tick_entry m.timeout_ms now) m.states },
  newly_sleeping m.timeout_ms now m.states,
)

unfoldable pub find_state : DisplayId → List Entry → Option PowerState
find_state d [] = none
find_state d (e ∷ es) = if e.id == d then some e.state else find_state d es

unfoldable pub state : PowerManager → DisplayId → Option PowerState
unfolding find_state
state m d = find_state d m.states

unfoldable pub asleep : List Entry → List DisplayId
asleep [] = []
asleep (e ∷ es) = let rest = asleep es in if is_asleep e.state then e.id ∷ rest else rest

unfoldable pub sleeping_displays : PowerManager → List DisplayId
unfolding asleep
sleeping_displays m = asleep m.states
