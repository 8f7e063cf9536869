-- ===== src/Render/Renderer.antt =====
-- crates/quicview-display/src/renderer.rs: the renderer that logs and the one that keeps the last
-- frame. The log line is not modelled. `u64` counters wrap.
pub mod Frames
use quicview.Prelude.{
  ℕ, ◌+◌, ◌%◌, ◌^◌, Option, none, some, List, [], ◌∷◌, Result, ok, err, not, ◌==◌, if◌then◌else◌,
}
use quicview.Protocol.Display.{DisplayId, Resolution, PixelFormat}
use quicview.Protocol.Frame.{FrameHeader}
use quicview.Render.Error.{DisplayError, display_not_found}

-- The trait.
pub record FrameRenderer (S : Type 0) : Type 0 where
  pub render : S → FrameHeader → List ℕ → S × Result DisplayError (Unit {0})
  pub resize : S → Resolution → S × Result DisplayError (Unit {0})

pub record LogRenderer : Type 0 where
  pub frames_rendered : ℕ

unfoldable pub new_log : LogRenderer
new_log = record { frames_rendered = 0 }

unfoldable pub render_log :
    LogRenderer → FrameHeader → List ℕ → LogRenderer × Result DisplayError (Unit {0})
render_log s header pixels = (record { frames_rendered = (s.frames_rendered + 1) % 2 ^ 64 }, ok tt)

unfoldable pub resize_log : LogRenderer → Resolution → LogRenderer × Result DisplayError (Unit {0})
resize_log s r = (s, ok tt)

pub record BufferRenderer : Type 0 where
  pub display_id : DisplayId
  pub last_frame : Option (List ℕ)
  pub format : PixelFormat
  pub frames_rendered : ℕ

unfoldable pub new : DisplayId → PixelFormat → BufferRenderer
new d f = record { display_id = d; last_frame = none; format = f; frames_rendered = 0 }

unfoldable pub render :
    BufferRenderer → FrameHeader → List ℕ → BufferRenderer × Result DisplayError (Unit {0})
render s header pixels =
    if not (header.display_id == s.display_id)
    then (s, err (display_not_found header.display_id))
    else (
      record s { last_frame = some pixels; frames_rendered = (s.frames_rendered + 1) % 2 ^ 64 },
      ok tt,
    )

unfoldable pub resize :
    BufferRenderer → Resolution → BufferRenderer × Result DisplayError (Unit {0})
resize s r = (s, ok tt)

-- The calls of `render`, one after the other, whatever they answer.
unfoldable pub render_all : BufferRenderer → List (FrameHeader × List ℕ) → BufferRenderer
unfolding render
render_all s [] = s
render_all s ((header, pixels) ∷ rest) = render_all (render s header pixels).0 rest

-- The two renderers behind the trait.
abbrev pub log_renderer : FrameRenderer LogRenderer
log_renderer = record { render = render_log; resize = resize_log }

abbrev pub buffer_renderer : FrameRenderer BufferRenderer
buffer_renderer = record { render = render; resize = resize }
