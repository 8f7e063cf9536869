-- ===== src/Capture/VirtualDisplay/Map.antt =====
-- The calls of virtual_display.rs one after the other, and the map from ids to displays that they are
-- compared with.
use quicview.Prelude.{
  ℕ, ◌+◌, Option, none, some, List, [], ◌∷◌, Result, ok, err, panic, ◌==◌, if◌then◌else◌,
}
use quicview.Protocol.Display.{DisplayId, Resolution}
use quicview.Capture.Error.{CaptureError, display_not_found}
use quicview.Capture.VirtualDisplay.{Entry, StubVirtualDisplay, create, resize, destroy}
use quicview.Capture.VirtualDisplay.Ids.{is_found}

pub data Call : Type 0 where
  creates : Resolution → ℕ → Call
  resizes : DisplayId → Resolution → Call
  destroys : DisplayId → Call

-- What a call answers: the id of a new display, or 0.
abbrev pub Answer : Type 0
Answer = Result CaptureError DisplayId

abbrev pub done : Result CaptureError (Unit {0}) → Answer
done (ok u) = ok 0
done (err e) = err e
done panic = panic

unfoldable pub step : StubVirtualDisplay → Call → StubVirtualDisplay × Answer
step s (creates r hz) = create s r hz
step s (resizes d r) = let (t, a) = resize s d r in (t, done a)
step s (destroys d) = let (t, a) = destroy s d in (t, done a)

unfoldable pub run : StubVirtualDisplay → List Call → StubVirtualDisplay × List Answer
run s [] = (s, [])
run s (c ∷ cs) = let (t, a) = step s c in let (u, rest) = run t cs in (u, a ∷ rest)

-- The map: the displays that there are, and the next id.
pub record Displays : Type 0 where
  pub next : ℕ
  pub shown : DisplayId → Option Entry

abbrev pub no_displays : Displays
no_displays = record { next = 100; shown = λ d. none }

-- The display of an id that is resized or destroyed, if it is there.
abbrev pub resized : Displays → DisplayId → Resolution → Option Entry → Displays × Answer
resized m d r none = (m, err (display_not_found d))
resized m d r (some e) = (
  record m { shown = λ j. if d == j then some (record e { resolution = r }) else m.shown j },
  ok 0,
)

abbrev pub map_step : Displays → Call → Displays × Answer
map_step m (creates r hz) = (
  record {
    next = m.next + 1;
    shown = λ j.
        if m.next == j
        then some (record { id = m.next; resolution = r; refresh_hz = hz })
        else m.shown j;
  },
  ok m.next,
)
map_step m (resizes d r) = resized m d r (m.shown d)
map_step m (destroys d) = (
  record m { shown = λ j. if d == j then none else m.shown j },
  (if is_found (m.shown d) then ok 0 else err (display_not_found d)),
)

abbrev pub map_run : Displays → List Call → Displays × List Answer
map_run m [] = (m, [])
map_run m (c ∷ cs) = let (n, a) = map_step m c in let (o, rest) = map_run n cs in (o, a ∷ rest)
