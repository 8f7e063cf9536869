-- ===== src/Input/Audio.antt =====
-- crates/quicview-input/src/audio.rs and clipboard.rs: the capture of silence and the clipboard in
-- memory. A sample is the bit pattern of its `f32`.
pub mod Samples
use quicview.Prelude.{
  ℕ, ◌*◌, ◌/◌, ◌%◌, ◌^◌, Bool, true, false, not, String, List, Result, ok, err, replicate,
  if◌then◌else◌,
}
use quicview.Input.Error.{InputError, injection_failed}

pub record SilentAudioCapture : Type 0 where
  pub is_active : Bool
  pub sample_rate : ℕ
  pub channels : ℕ

unfoldable pub new : ℕ → ℕ → SilentAudioCapture
new rate channels = record { is_active = false; sample_rate = rate; channels = channels }

unfoldable pub start : SilentAudioCapture → SilentAudioCapture × Result InputError (Unit {0})
start s = (record s { is_active = true }, ok tt)

-- `0.0f32`.
abbrev pub silence : ℕ
silence = 0

unfoldable pub read_samples : SilentAudioCapture → Result InputError (List ℕ)
read_samples s =
    if not s.is_active
    then err (injection_failed "audio capture not started")
    else ok (replicate (s.sample_rate / 100 * s.channels % 2 ^ 64) silence)

unfoldable pub stop : SilentAudioCapture → SilentAudioCapture × Result InputError (Unit {0})
stop s = (record s { is_active = false }, ok tt)

-- clipboard.rs.
pub record MemoryClipboard : Type 0 where
  pub text : String

unfoldable pub empty_clipboard : MemoryClipboard
empty_clipboard = record { text = "" }

unfoldable pub read_text : MemoryClipboard → Result InputError String
read_text c = ok c.text

unfoldable pub write_text :
    MemoryClipboard → String → MemoryClipboard × Result InputError (Unit {0})
write_text c text = (record { text = text }, ok tt)
