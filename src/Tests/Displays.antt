-- ===== src/Tests/Displays.antt =====
-- Capture, virtual displays, the wall, surfaces, renderers and injectors (crates/quicview-capture,
-- crates/quicview-display, crates/quicview-input).
use quicview.Prelude.{
  ◌*◌, ℕ, ◌≡◌, refl, List, [], ◌∷◌, none, some, ok, false, arith, ◌%◌, ◌^◌, length,
}
use quicview.Prelude.Int.{pos}
use quicview.Protocol.Display.{Resolution, bgra8, rgba8, rgb8, buffer_size, bytes_per_pixel}
use quicview.Protocol.Display.Sizes.{buffer_size-bytes_per_pixel}
use quicview.Protocol.Frame.{FrameHeader, full}
use quicview.Capture.VirtualDisplay
use quicview.Capture.VirtualDisplay.Map.{creates, resizes, destroys, map_run, no_displays}
use quicview.Capture.VirtualDisplay.Map
use quicview.Capture.VirtualDisplay.Refinement.{run-map_run}
use quicview.Capture.VirtualDisplay.Ids.{find}
use quicview.Capture.Wall.{DisplayWall, adds, removes, add_client, remove_client, run}
use quicview.Capture.Wall
use quicview.Capture.Wall.Clients.{IsLinked, run-IsLinked}
use quicview.Capture.Source.{TestCaptureSource, grab, start}
use quicview.Render.Surface.{
  MemorySurface, resizes, presents, step, present, buf_len, size_mismatch,
}
use quicview.Render.Surface
use quicview.Render.Surface.Shown.{Shows, pictured_all, answer, run-Shows}
use quicview.Render.Renderer.{render_all}
use quicview.Render.Renderer
use quicview.Render.Renderer.Frames.{frames_of, last_or, render_all-frames_of}

abbrev hd : Resolution
hd = record { width = 1280; height = 720 }

abbrev one_pixel : Resolution
one_pixel = record { width = 1; height = 1 }

abbrev two_clients : List Wall.Call
two_clients = adds 1 (pos 0) (pos 0) hd ∷ adds 2 (pos 1) (pos 0) hd ∷ removes 1 ∷ []

run-IsLinked_example : IsLinked (run Wall.new two_clients)
run-IsLinked_example = run-IsLinked two_clients (omega arith)

abbrev tiny : Resolution
tiny = record { width = 2; height = 1 }

abbrev source : TestCaptureSource
source = record { is_active = false; display_id = 0; resolution = tiny; frame_count = 0 }

first_grab :
    (grab (start source 0).0).1
    ≡ ok (
        some (record {
          bytes = 1 ∷ 1 ∷ 1 ∷ 1 ∷ 1 ∷ 1 ∷ 1 ∷ 1 ∷ [];
          pixel_format = bgra8;
          resolution = tiny;
          timestamp_us = 16667;
        }))
unfolding grab start buffer_size
first_grab = refl

-- The surface is made smaller and larger again between two frames, the last of a wrong size.
abbrev shown_calls : List Surface.Call
shown_calls =
    presents (1 ∷ 2 ∷ 3 ∷ 4 ∷ 5 ∷ 6 ∷ 7 ∷ 8 ∷ [])
    ∷ resizes one_pixel
    ∷ resizes tiny
    ∷ presents (1 ∷ [])
    ∷ []

run-Shows_example :
    Shows (Surface.run (Surface.new 1 tiny) shown_calls) (pictured_all (tiny, λ i. 0) shown_calls)
    × ((step (Surface.run (Surface.new 1 tiny) shown_calls) (presents [])).1
        ≡ answer (pictured_all (tiny, λ i. 0) shown_calls).0 (presents []))
run-Shows_example = run-Shows 1 tiny shown_calls (presents [])

abbrev frame_for : ℕ → FrameHeader
frame_for d = record {
  kind = full;
  display_id = d;
  sequence = 1;
  resolution = tiny;
  pixel_format = rgba8;
  payload_len = 8;
}

abbrev frame_list : List (FrameHeader × List ℕ)
frame_list = (frame_for 1, 5 ∷ []) ∷ (frame_for 2, 6 ∷ []) ∷ []

render_all-frames_of_example :
    ((render_all (Renderer.new 1 rgba8) frame_list).last_frame
      ≡ last_or none (frames_of 1 frame_list))
    × ((render_all (Renderer.new 1 rgba8) frame_list).frames_rendered
        ≡ length (frames_of 1 frame_list) % 2 ^ 64)
render_all-frames_of_example = render_all-frames_of 1 rgba8 frame_list

-- Two displays are made, the first is resized and the second destroyed.
abbrev edits : List Map.Call
edits =
    creates hd 60
    ∷ creates hd 30
    ∷ resizes 100 (record { width = 640; height = 480 })
    ∷ destroys 101
    ∷ []

run-map_run_example :
    ((Map.run VirtualDisplay.new edits).1 ≡ (map_run no_displays edits).1)
    × (find 100 (Map.run VirtualDisplay.new edits).0.displays
        ≡ (map_run no_displays edits).0.shown 100)
run-map_run_example = run-map_run edits 100 (omega arith)

three_bytes_each : bytes_per_pixel rgb8 ≡ some 3
unfolding bytes_per_pixel
three_bytes_each = refl

buffer_size-bytes_per_pixel_example : buffer_size rgb8 hd ≡ 1280 * 720 * 3 % 2 ^ 64
buffer_size-bytes_per_pixel_example =
    buffer_size-bytes_per_pixel rgb8 hd 3 (omega arith, omega arith) three_bytes_each
