-- ===== src/Render/Renderer/Frames.antt =====
-- The renderer takes the frames of its own display.
use quicview.Prelude.{
  ℕ, ◌+◌, ◌%◌, ◌^◌, ◌<◌, ◌≡◌, refl, Option, none, some, List, [], ◌∷◌, arith, length, ◌==◌,
  if◌then◌else◌,
}
use quicview.Protocol.Display.{DisplayId, PixelFormat}
use quicview.Protocol.Frame.{FrameHeader}
use quicview.Render.Renderer.{BufferRenderer, new, render, render_all}

-- The pixels of the frames for the display, in their order.
pub frames_of : DisplayId → List (FrameHeader × List ℕ) → List (List ℕ)
frames_of d [] = []
frames_of d ((header, pixels) ∷ rest) =
    let others = frames_of d rest in if header.display_id == d then pixels ∷ others else others

pub last_or : Option (List ℕ) → List (List ℕ) → Option (List ℕ)
last_or o [] = o
last_or o (p ∷ ps) = last_or (some p) ps

render_all_from :
    (s : BufferRenderer) (frames : List (FrameHeader × List ℕ))
    → s.frames_rendered < 2 ^ 64
    → ((render_all s frames).last_frame ≡ last_or s.last_frame (frames_of s.display_id frames))
      × ((render_all s frames).frames_rendered
          ≡ (s.frames_rendered + length (frames_of s.display_id frames)) % 2 ^ 64)
unfolding render_all render frames_of last_or
render_all_from s [] h = (refl, omega arith)
render_all_from s ((header, pixels) ∷ rest) h =
    ground (arith, render_all_from (render s header pixels).0 rest)

-- After any calls on a new renderer the frame kept is the last one for its display, if any, and the
-- count is the number of frames for its display, modulo 2 ^ 64.
pub render_all-frames_of :
    (d : DisplayId) (f : PixelFormat) (frames : List (FrameHeader × List ℕ))
    → ((render_all (new d f) frames).last_frame ≡ last_or none (frames_of d frames))
      × ((render_all (new d f) frames).frames_rendered ≡ length (frames_of d frames) % 2 ^ 64)
unfolding new
render_all-frames_of d f frames = ground (arith, render_all_from (new d f) frames (omega arith))
