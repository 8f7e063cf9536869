-- ===== src/Capture/Source.antt =====
-- crates/quicview-capture/src/source.rs: the test capture source. `u64` counters wrap.
pub mod Frames
use quicview.Prelude.{
  ℕ, ◌+◌, ◌*◌, ◌%◌, ◌^◌, Bool, true, false, Option, none, some, List, [], ◌∷◌, replicate, Result,
  ok, err, if◌then◌else◌,
}
use quicview.Protocol.Display.{
  DisplayId, primary, Resolution, PixelFormat, bgra8, buffer_size, DisplayInfo,
}
use quicview.Capture.Error.{CaptureError, capture_failed}

pub record FrameBuffer : Type 0 where
  pub bytes : List ℕ
  pub pixel_format : PixelFormat
  pub resolution : Resolution
  pub timestamp_us : ℕ

-- The trait.
pub record CaptureSource (S : Type 0) : Type 0 where
  pub enumerate_displays : S → Result CaptureError (List DisplayInfo)
  pub start : S → DisplayId → S × Result CaptureError (Unit {0})
  pub grab : S → S × Result CaptureError (Option FrameBuffer)
  pub stop : S → S × Result CaptureError (Unit {0})

pub record TestCaptureSource : Type 0 where
  pub is_active : Bool
  pub display_id : DisplayId
  pub resolution : Resolution
  pub frame_count : ℕ

unfoldable pub new : Resolution → TestCaptureSource
new r = record { is_active = false; display_id = primary; resolution = r; frame_count = 0 }

unfoldable pub enumerate_displays : TestCaptureSource → Result CaptureError (List DisplayInfo)
enumerate_displays s = ok (
    record {
      id = primary;
      name = "Test Display";
      resolution = s.resolution;
      refresh_hz = 60;
      is_virtual = false;
    }
    ∷ [])

unfoldable pub start :
    TestCaptureSource → DisplayId → TestCaptureSource × Result CaptureError (Unit {0})
start s d = (record s { display_id = d; is_active = true }, ok tt)

unfoldable pub stop : TestCaptureSource → TestCaptureSource × Result CaptureError (Unit {0})
stop s = (record s { is_active = false }, ok tt)

-- The frame with the given number.
unfoldable pub solid_frame : Resolution → ℕ → FrameBuffer
solid_frame r count = record {
  bytes = replicate (buffer_size bgra8 r) (count % 256);
  pixel_format = bgra8;
  resolution = r;
  timestamp_us = count * 16667 % 2 ^ 64;
}

unfoldable pub grab :
    TestCaptureSource → TestCaptureSource × Result CaptureError (Option FrameBuffer)
unfolding solid_frame
grab s =
    if s.is_active
    then (let count = (s.frame_count + 1) % 2 ^ 64 in
        (record s { frame_count = count }, ok (some (solid_frame s.resolution count))))
    else (s, err (capture_failed "not started"))

-- The source behind the trait.
abbrev pub test_source : CaptureSource TestCaptureSource
test_source = record {
  enumerate_displays = enumerate_displays;
  start = start;
  grab = grab;
  stop = stop;
}
