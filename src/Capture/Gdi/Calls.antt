-- ===== src/Capture/Gdi/Calls.antt =====
-- Any calls of the source in gdi.rs, one after the other.
use quicview.Prelude.{ℕ, ◌*◌, ◌^◌, ◌<◌, ◌≡◌, refl, List, [], ◌∷◌, some, arith}
use quicview.Prelude.Int.{pos_part, to_u32, IsI32}
use quicview.Protocol.Display.{DisplayId}
use quicview.Capture.Gdi.{
  Gdi, GdiCaptureSource, new, enumerate_displays, find_display, start_with, start, stop, grab,
  with_screen, with_mem, copy_screen, read_back, Grabbed,
}
use quicview.Capture.Gdi.Ledger.{GdiCall, nothing_held, replay, logged}
use quicview.Capture.Gdi.Release.{if-holds, SelectsFresh, GivesBack, grab-replay}

pub data Call : Type 0 where
  starts : DisplayId → Call
  stops grabs : Call

module _ {O : Type 0} (g : Gdi O) where
  -- The source with the system that it has called.
  unfoldable pub step : GdiCaptureSource × O → Call → GdiCaptureSource × O
  step (s, o) (starts d) = ((start g s d o).0, o)
  step (s, o) stops = ((stop s).0, o)
  step (s, o) grabs = let (s1, o1, r) = grab g s o in (s1, o1)

  unfoldable pub run : GdiCaptureSource × O → List Call → GdiCaptureSource × O
  run w [] = w
  run w (c ∷ cs) = run (step w c) cs

-- The frame has fewer than 2^32 bytes, and is narrower than 2^31.
abbrev pub IsSmall : GdiCaptureSource → Type 0
IsSmall s = (s.resolution.width * s.resolution.height * 4 < 2 ^ 32) × (s.resolution.width < 2 ^ 31)

-- Every screen is like that, with a width and a height that are values of `i32`.
abbrev pub SmallScreens : {O : Type 0} → Gdi O → Type 0
SmallScreens {O} g =
    (o : O)
    → IsI32 (g.screen_width o)
      × IsI32 (g.screen_height o)
      × (pos_part (g.screen_width o) * pos_part (g.screen_height o) * 4 < 2 ^ 32)

module _ {O : Type 0} (g : Gdi O) (s : GdiCaptureSource) where
  abbrev Kept : Grabbed O → Type 0
  Kept r = r.0.resolution ≡ s.resolution

  read_back-resolution :
      (screen mem bitmap old : ℕ) (o : O)
      → (read_back g s screen mem bitmap old o).0.resolution ≡ s.resolution
  unfolding read_back
  read_back-resolution screen mem bitmap old o = ground arith

  copy_screen-resolution :
      (screen mem bitmap : ℕ) (o : O)
      → (copy_screen g s screen mem bitmap o).0.resolution ≡ s.resolution
  unfolding copy_screen
  copy_screen-resolution screen mem bitmap o = if-holds Kept _ refl (read_back-resolution _ _ _ _ _)

  with_mem-resolution :
      (screen mem : ℕ) (o : O) → (with_mem g s screen mem o).0.resolution ≡ s.resolution
  unfolding with_mem
  with_mem-resolution screen mem o = grind (arith, copy_screen-resolution)

  with_screen-resolution :
      (screen : ℕ) (o : O) → (with_screen g s screen o).0.resolution ≡ s.resolution
  unfolding with_screen
  with_screen-resolution screen o = grind (arith, with_mem-resolution)

  grab-resolution : (o : O) → (grab g s o).0.resolution ≡ s.resolution
  unfolding grab
  grab-resolution o = grind (arith, with_screen-resolution)

module _ {O : Type 0} (g : Gdi O) (fresh : SelectsFresh g) (gives : GivesBack g)
    (screens : SmallScreens g) where
  start-IsSmall :
      (s : GdiCaptureSource) (d : DisplayId) (w : O × List GdiCall)
      → IsSmall s
      → IsSmall (start (logged g) s d w).0
  unfolding start start_with enumerate_displays find_display to_u32
  start-IsSmall s d (o, log) small = ground (arith, screens o)

  abbrev Sound : GdiCaptureSource × (O × List GdiCall) → Type 0
  Sound (s, (o, log)) = IsSmall s × (replay log ≡ some nothing_held)

  step-Sound :
      (w : GdiCaptureSource × (O × List GdiCall)) (c : Call) → Sound w → Sound (step (logged g) w c)
  unfolding step
  step-Sound (s, w) (starts d) (small, held) = (start-IsSmall s d w small, held)
  step-Sound (s, w) stops (small, held) = (unfold stop in small, held)
  step-Sound (s, (o, log)) grabs (small, held) = (
    rw (grab-resolution (logged g) s (o, log)) small,
    grab-replay g s fresh gives small.0 small.1 o log held,
  )

  run-Sound :
      (w : GdiCaptureSource × (O × List GdiCall)) (cs : List Call)
      → Sound w
      → Sound (run (logged g) w cs)
  unfolding run
  run-Sound w [] h = h
  run-Sound w (c ∷ cs) h = run-Sound (step (logged g) w c) cs (step-Sound w c h)

  -- After any calls of `start`, `stop` and `grab` on a new source, from no calls to the system before,
  -- whichever calls that get a handle, select the bitmap, copy or read have failed: the calls made so
  -- far have used no handle that was not held, lost none, deleted no bitmap while it was selected and
  -- written no bits past the buffer, and nothing is held. The conditions: what is given back is taken
  -- (an object that `SelectObject` replaced can be selected again, and the calls that delete and
  -- release succeed), `SelectObject` with a bitmap made just now returns another object, and every
  -- screen's frame has less than 2^32 bytes.
  pub run-replay :
      (o : O) (cs : List Call) → replay (run (logged g) (new, (o, [])) cs).1.1 ≡ some nothing_held
  unfolding new
  run-replay o cs = (run-Sound _ cs (omega arith, refl)).1
