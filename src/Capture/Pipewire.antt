-- ===== src/Capture/Pipewire.antt =====
-- crates/quicview-capture/src/pipewire.rs: capture on Linux that is not implemented. It has no state.
use quicview.Prelude.{Option, List, Result, err}
use quicview.Protocol.Display.{DisplayId, DisplayInfo}
use quicview.Capture.Error.{CaptureError, platform_not_supported}
use quicview.Capture.Source.{FrameBuffer}

unfoldable pub new : Result CaptureError (Unit {0})
new = err (platform_not_supported "PipeWire capture not yet implemented")

unfoldable pub enumerate_displays : Result CaptureError (List DisplayInfo)
enumerate_displays = err (platform_not_supported "Linux")

unfoldable pub start : DisplayId → Result CaptureError (Unit {0})
start d = err (platform_not_supported "Linux")

unfoldable pub grab : Result CaptureError (Option FrameBuffer)
grab = err (platform_not_supported "Linux")

unfoldable pub stop : Result CaptureError (Unit {0})
stop = err (platform_not_supported "Linux")
