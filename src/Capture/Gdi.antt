-- ===== src/Capture/Gdi.antt =====
-- crates/quicview-capture/src/gdi.rs: capture of the Windows screen. The system's calls are a
-- parameter, on a state of the system that is theirs; a handle is a number, 0 where a call failed.
-- `u32` and `u64` arithmetic wraps, as in a release build.
pub mod Ledger
pub mod Release
pub mod Calls
use quicview.Prelude.{
  ℕ, ◌+◌, ◌*◌, ◌%◌, ◌^◌, Bool, true, false, not, ◌||◌, Option, none, some, List, [], ◌∷◌, replicate,
  Result, ok, err, panic, ◌==◌, leb, if◌then◌else◌,
}
use quicview.Prelude.Int.{ℤ, pos, negsuc, pos_part, ◌-ℤ◌, to_u32, to_i32, wrap_i32}
use quicview.Protocol.Display.{DisplayId, primary, Resolution, bgra8, DisplayInfo}
use quicview.Capture.Error.{CaptureError, capture_failed, display_not_found}
use quicview.Capture.Source.{FrameBuffer}

-- The fields of `BITMAPINFOHEADER` that are set; the others are zero.
pub record BitmapHeader : Type 0 where
  pub size : ℕ
  pub width : ℤ
  pub height : ℤ
  pub planes : ℕ
  pub bit_count : ℕ
  pub compression : ℕ

-- The calls, on a state `O` of the system. `get_di_bits` takes the buffer and gives what it holds
-- afterwards, with the number of lines.
pub record Gdi (O : Type 0) : Type 0 where
  pub screen_width : O → ℤ
  pub screen_height : O → ℤ
  pub header_size : ℕ
  pub bi_rgb : ℕ
  pub get_dc : O → O × ℕ
  pub create_compatible_dc : ℕ → O → O × ℕ
  pub create_compatible_bitmap : ℕ → ℤ → ℤ → O → O × ℕ
  pub select_object : ℕ → ℕ → O → O × ℕ
  pub bit_blt : ℕ → ℤ → ℤ → ℕ → O → O × ℕ
  pub get_di_bits : ℕ → ℕ → ℕ → List ℕ → BitmapHeader → O → O × List ℕ × ℕ
  pub delete_object : ℕ → O → O × ℕ
  pub delete_dc : ℕ → O → O × ℕ
  pub release_dc : ℕ → O → O × ℕ

pub record GdiCaptureSource : Type 0 where
  pub is_active : Bool
  pub target_display : Option DisplayId
  pub resolution : Resolution
  pub frame_count : ℕ

unfoldable pub new : GdiCaptureSource
new = record {
  is_active = false;
  target_display = none;
  resolution = record { width = 0; height = 0 };
  frame_count = 0;
}

-- `n <= 0`.
abbrev is_not_positive : ℤ → Bool
is_not_positive z = pos_part z == 0

unfoldable pub enumerate_displays :
    {O : Type 0} → Gdi O → O → Result CaptureError (List DisplayInfo)
enumerate_displays g o =
    if is_not_positive (g.screen_width o) || is_not_positive (g.screen_height o)
    then err (capture_failed "failed to get screen dimensions")
    else ok (
        record {
          id = primary;
          name = "Primary Display";
          resolution = record {
            width = to_u32 (g.screen_width o);
            height = to_u32 (g.screen_height o);
          };
          refresh_hz = 60;
          is_virtual = false;
        }
        ∷ [])

-- `iter().find(|d| d.id == display_id)`.
unfoldable pub find_display : DisplayId → List DisplayInfo → Option DisplayInfo
find_display d [] = none
find_display d (i ∷ is) = if i.id == d then some i else find_display d is

-- The rest of `start`, from the answer of `enumerate_displays`.
unfoldable pub start_with :
    GdiCaptureSource
    → DisplayId
    → Result CaptureError (List DisplayInfo)
    → GdiCaptureSource × Result CaptureError (Unit {0})
unfolding find_display
start_with s d (err e) = (s, err e)
start_with s d panic = (s, panic)
start_with s d (ok displays) = elim (find_display d displays) [
  | none ↦ (s, err (display_not_found d))
  | some target ↦ (
    record s { target_display = some d; resolution = target.resolution; is_active = true },
    ok tt,
  )
]

unfoldable pub start :
    {O : Type 0}
    → Gdi O
    → GdiCaptureSource
    → DisplayId
    → O
    → GdiCaptureSource × Result CaptureError (Unit {0})
unfolding enumerate_displays start_with
start g s d o = start_with s d (enumerate_displays g o)

unfoldable pub stop : GdiCaptureSource → GdiCaptureSource × Result CaptureError (Unit {0})
stop s = (record s { is_active = false; target_display = none }, ok tt)

-- The source and the system after `grab`, and its result.
abbrev pub Grabbed : Type 0 → Type 0
Grabbed O = GdiCaptureSource × O × Result CaptureError (Option FrameBuffer)

module _ {O : Type 0} (g : Gdi O) (s : GdiCaptureSource) where
  abbrev w : ℤ
  w = to_i32 s.resolution.width

  abbrev h : ℤ
  h = to_i32 s.resolution.height

  abbrev pub header : BitmapHeader
  header = record {
    size = g.header_size;
    width = w;
    height = wrap_i32 (pos 0 -ℤ h);
    planes = 1;
    bit_count = 32;
    compression = g.bi_rgb;
  }

  abbrev pub buf_size : ℕ
  buf_size = s.resolution.width * s.resolution.height % 2 ^ 32 * 4 % 2 ^ 32

  -- The four calls that give everything back once the bitmap is selected. Nothing is done with their
  -- answers.
  unfoldable pub give_back : ℕ → ℕ → ℕ → ℕ → O → O
  give_back screen mem bitmap old o =
      let (o1, replaced) = g.select_object mem old o in
      let (o2, object_deleted) = g.delete_object bitmap o1 in
      let (o3, dc_deleted) = g.delete_dc mem o2 in let (o4, released) = g.release_dc screen o3 in o4

  -- After `BitBlt` succeeded.
  unfoldable pub read_back : ℕ → ℕ → ℕ → ℕ → O → Grabbed O
  read_back screen mem bitmap old o =
      let (o1, bytes, lines) =
        g.get_di_bits mem bitmap s.resolution.height (replicate buf_size 0) header o in
      let o2 = give_back screen mem bitmap old o1 in
      let count = (s.frame_count + 1) % 2 ^ 64 in
      if lines == 0 then (s, o2, err (capture_failed "GetDIBits failed")) else (
        record s { frame_count = count },
        o2,
        ok (
            some (record {
              bytes = bytes;
              pixel_format = bgra8;
              resolution = s.resolution;
              timestamp_us = count * 16667 % 2 ^ 64;
            })),
      )

  -- After the bitmap was made.
  unfoldable pub copy_screen : ℕ → ℕ → ℕ → O → Grabbed O
  copy_screen screen mem bitmap o =
      let (o1, old) = g.select_object mem bitmap o in
      let (o2, done) = g.bit_blt mem w h screen o1 in
      if done == 0
      then (s, give_back screen mem bitmap old o2, err (capture_failed "BitBlt failed"))
      else read_back screen mem bitmap old o2

  -- After the memory context was made.
  unfoldable pub with_mem : ℕ → ℕ → O → Grabbed O
  with_mem screen mem o =
      let (o1, bitmap) = g.create_compatible_bitmap screen w h o in
      if bitmap == 0
      then (
        s,
        (g.release_dc screen (g.delete_dc mem o1).0).0,
        err (capture_failed "CreateCompatibleBitmap failed"),
      )
      else copy_screen screen mem bitmap o1

  -- After the context of the screen was got.
  unfoldable pub with_screen : ℕ → O → Grabbed O
  with_screen screen o =
      let (o1, mem) = g.create_compatible_dc screen o in
      if mem == 0
      then (s, (g.release_dc screen o1).0, err (capture_failed "CreateCompatibleDC failed"))
      else with_mem screen mem o1

  unfoldable pub grab : O → Grabbed O
  grab o =
      if not s.is_active
      then (s, o, err (capture_failed "not started"))
      else (let (o1, screen) = g.get_dc o in
          if screen == 0
          then (s, o1, err (capture_failed "GetDC failed"))
          else with_screen screen o1)
