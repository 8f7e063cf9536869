-- ===== src/Tests/Wire.antt =====
-- Frame headers, input events and layouts (crates/quicview-protocol).
use quicview.Prelude.{ℕ, ◌≡◌, refl, ◌++◌, List, [], ◌∷◌, some, ok, IsBytes, arith, All}
use quicview.Prelude.Int.{pos, negsuc, ◌+ℤ◌, ◌-ℤ◌, to_u32, wrap_i32, to_i32}
use quicview.Protocol.Buf.{list_buf}
use quicview.Protocol.Display.{bgra8}
use quicview.Protocol.Display.Layout.{DisplayEntry, OnDesktop, Inside, Within, bounding_box}
use quicview.Protocol.Display.Layout.Box.{bounding_box_smallest}
use quicview.Protocol.Frame.{FrameHeader, full, IsHeader, encode, decode}
use quicview.Protocol.Frame.RoundTrip.{decode-encode, decode-Explains, Explains}
use quicview.Protocol.Input.{InputEvent, mouse, left, press, IsEvent}
use quicview.Protocol.Input
use quicview.Protocol.Input.RoundTrip.{decode-encode_event}
use quicview.Protocol.Input.Answers.{decode-Explains_event}
use quicview.Protocol.Input.Answers

abbrev header : FrameHeader
header = record {
  kind = full;
  display_id = 1;
  sequence = 42;
  resolution = record { width = 1920; height = 1080 };
  pixel_format = bgra8;
  payload_len = 8294400;
}

header-IsHeader : IsHeader header
header-IsHeader = record {
  id_fits = omega arith;
  sequence_fits = omega arith;
  resolution_fits = (omega arith, omega arith);
  payload_fits = omega arith;
}

header_bytes :
    encode list_buf header []
    ≡ 0 ∷ 0 ∷ 0 ∷ 0 ∷ 1 ∷ 0 ∷ 0 ∷ 0 ∷ 42 ∷ 0 ∷ 0 ∷ 7 ∷ 128 ∷ 0 ∷ 0 ∷ 4 ∷ 56 ∷ 0 ∷ 0 ∷ 0 ∷ 0 ∷ 126
      ∷ 144 ∷ 0 ∷ []
unfolding encode list_buf
header_bytes = refl

decode-encode_example :
    decode list_buf (encode list_buf header [] ++ (7 ∷ [])) ≡ (ok header, 7 ∷ [])
decode-encode_example = decode-encode list_buf header (7 ∷ []) header-IsHeader (omega arith)

-- Kind, display 1, sequence 2, one pixel, format, reserved, four bytes; then a byte that is left.
abbrev one_pixel : List ℕ
one_pixel =
    1 ∷ 0 ∷ 0 ∷ 0 ∷ 1 ∷ 0 ∷ 0 ∷ 0 ∷ 2 ∷ 0 ∷ 0 ∷ 0 ∷ 1 ∷ 0 ∷ 0 ∷ 0 ∷ 1 ∷ 0 ∷ 9 ∷ 9 ∷ 0 ∷ 0 ∷ 0 ∷ 4
    ∷ 5 ∷ []

one_pixel-IsBytes : IsBytes one_pixel
one_pixel-IsBytes = omega arith

decode-Explains_example : Explains one_pixel (decode list_buf one_pixel)
decode-Explains_example = decode-Explains list_buf one_pixel one_pixel-IsBytes

abbrev click : InputEvent
click = mouse (record { x = negsuc 9; y = pos 20; button = some (left, press) })

decode-encode_event_example :
    Input.decode list_buf (Input.encode list_buf click [] ++ (3 ∷ [])) ≡ (ok click, 3 ∷ [])
decode-encode_event_example = decode-encode_event list_buf click (3 ∷ []) (omega arith, omega arith)

abbrev key_bytes : List ℕ
key_bytes = 1 ∷ 0 ∷ 0 ∷ 0 ∷ 30 ∷ 1 ∷ 2 ∷ []

decode-Explains_event_example : Answers.Explains key_bytes (Input.decode list_buf key_bytes)
decode-Explains_event_example = decode-Explains_event list_buf key_bytes (omega arith)

abbrev left_screen : DisplayEntry
left_screen = record {
  display_id = 0;
  x = negsuc 1919;
  y = pos 0;
  resolution = record { width = 1920; height = 1080 };
}

abbrev right_screen : DisplayEntry
right_screen = record {
  display_id = 1;
  x = pos 0;
  y = pos 100;
  resolution = record { width = 1280; height = 720 };
}

abbrev screens : List DisplayEntry
screens = left_screen ∷ right_screen ∷ []

screens_box : bounding_box (record { entries = screens }) ≡ (negsuc 1919, pos 0, 3200, 1080)
unfolding bounding_box to_u32 wrap_i32 to_i32 ◌-ℤ◌ ◌+ℤ◌
screens_box = refl

screens-OnDesktop : All OnDesktop screens
unfolding ◌+ℤ◌
screens-OnDesktop = ground arith

screens-Inside : All (Inside (negsuc 1999, pos 0, 4000, 2000)) screens
unfolding ◌+ℤ◌
screens-Inside = ground arith

bounding_box_smallest_example :
    All (Inside (bounding_box (record { entries = screens }))) screens
    × Within (bounding_box (record { entries = screens })) (negsuc 1999, pos 0, 4000, 2000)
bounding_box_smallest_example =
    bounding_box_smallest left_screen (right_screen ∷ []) (negsuc 1999, pos 0, 4000, 2000)
      screens-OnDesktop screens-Inside
