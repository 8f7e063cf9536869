-- ===== src/Input/CgEvent.antt =====
-- crates/quicview-input/src/cgevent.rs: injection on macOS, which is not implemented. It has no state.
use quicview.Prelude.{Result, err}
use quicview.Protocol.Input.{InputEvent}
use quicview.Input.Error.{InputError, platform_not_supported}

unfoldable pub new : Result InputError (Unit {0})
new = err platform_not_supported

unfoldable pub inject : InputEvent → Result InputError (Unit {0})
inject event = err platform_not_supported
