-- ===== src/Capture/VirtualDisplay.antt =====
-- crates/quicview-capture/src/virtual_display.rs: the stub that keeps virtual displays in memory.
-- Ids are `u32` and wrap.
pub mod Ids
pub mod Map
pub mod Refinement
use quicview.Prelude.{
  ℕ, ◌+◌, ◌%◌, ◌^◌, Option, none, some, List, [], ◌∷◌, ◌++◌, map, Bool, not, true, false, Result,
  ok, err, length, ◌==◌, if◌then◌else◌,
}
use quicview.Protocol.Display.{DisplayId, Resolution}
use quicview.Capture.Error.{CaptureError, display_not_found}

-- `(DisplayId, Resolution, u32)`.
pub record Entry : Type 0 where
  pub id : DisplayId
  pub resolution : Resolution
  pub refresh_hz : ℕ

pub record StubVirtualDisplay : Type 0 where
  pub next_id : ℕ
  pub displays : List Entry

unfoldable pub new : StubVirtualDisplay
new = record { next_id = 100; displays = [] }

unfoldable pub create :
    StubVirtualDisplay → Resolution → ℕ → StubVirtualDisplay × Result CaptureError DisplayId
create s resolution refresh = (
  record {
    next_id = (s.next_id + 1) % 2 ^ 32;
    displays =
        s.displays
        ++ (record { id = s.next_id; resolution = resolution; refresh_hz = refresh } ∷ []);
  },
  ok s.next_id,
)

-- The loop over the entries: the first with the id is changed; `none` if it runs through.
unfoldable pub resize_first : DisplayId → Resolution → List Entry → Option (List Entry)
resize_first d r [] = none
resize_first d r (e ∷ es) = elim (e.id == d) [
  | true ↦ some (record e { resolution = r } ∷ es)
  | false ↦ elim (resize_first d r es) [ none ↦ none | some es' ↦ some (e ∷ es') ]
]

unfoldable pub resize :
    StubVirtualDisplay
    → DisplayId
    → Resolution
    → StubVirtualDisplay × Result CaptureError (Unit {0})
unfolding resize_first
resize s d r = elim (resize_first d r s.displays) [
  | none ↦ (s, err (display_not_found d))
  | some es ↦ (record s { displays = es }, ok tt)
]

-- `retain(|e| e.0 != display_id)`.
unfoldable pub retain_others : DisplayId → List Entry → List Entry
retain_others d [] = []
retain_others d (e ∷ es) =
    let rest = retain_others d es in if not (e.id == d) then e ∷ rest else rest

unfoldable pub destroy :
    StubVirtualDisplay → DisplayId → StubVirtualDisplay × Result CaptureError (Unit {0})
unfolding retain_others
destroy s d =
    let kept = retain_others d s.displays in
    (
      record s { displays = kept },
      (if length kept == length s.displays then err (display_not_found d) else ok tt),
    )

unfoldable pub list : StubVirtualDisplay → List DisplayId
list s = map (λ (e : Entry). e.id) s.displays
