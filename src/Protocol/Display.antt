-- ===== src/Protocol/Display.antt =====
-- crates/quicview-protocol/src/display.rs: resolutions, pixel formats, displays.
pub mod Layout
pub mod Sizes
use quicview.Prelude.{
  ℕ, ◌+◌, ◌*◌, ◌/◌, ◌%◌, ◌^◌, ◌<◌, Option, none, some, String, concat, show, List, [], ◌∷◌, Bool,
}

-- `DisplayId(pub u32)`: the number itself.
abbrev pub DisplayId : Type 0
DisplayId = ℕ

abbrev pub primary : DisplayId
primary = 0

-- `Display for DisplayId`.
unfoldable pub display_id_text : DisplayId → String
display_id_text d = concat ("display:" ∷ show d ∷ [])

pub record Resolution : Type 0 where
  pub width : ℕ
  pub height : ℕ

-- Both sides are `u32`.
abbrev pub IsResolution : Resolution → Type 0
IsResolution r = (r.width < 2 ^ 32) × (r.height < 2 ^ 32)

-- In `u64`; two 32-bit factors cannot wrap there.
-- `Display` of a resolution.
unfoldable pub resolution_text : Resolution → String
resolution_text r = concat (show r.width ∷ "x" ∷ show r.height ∷ [])

unfoldable pub pixel_count : Resolution → ℕ
pixel_count r = r.width * r.height % 2 ^ 64

pub data PixelFormat : Type 0 where
  bgra8 rgba8 rgb8 nv12 : PixelFormat

unfoldable pub bytes_per_pixel : PixelFormat → Option ℕ
bytes_per_pixel bgra8 = some 4
bytes_per_pixel rgba8 = some 4
bytes_per_pixel rgb8 = some 3
bytes_per_pixel nv12 = none

-- `usize` arithmetic, on a 64-bit target.
unfoldable pub buffer_size : PixelFormat → Resolution → ℕ
unfolding pixel_count
buffer_size bgra8 r = pixel_count r * 4 % 2 ^ 64
buffer_size rgba8 r = pixel_count r * 4 % 2 ^ 64
buffer_size rgb8 r = pixel_count r * 3 % 2 ^ 64
buffer_size nv12 r = (pixel_count r + pixel_count r / 2) % 2 ^ 64

pub record DisplayInfo : Type 0 where
  pub id : DisplayId
  pub name : String
  pub resolution : Resolution
  pub refresh_hz : ℕ
  pub is_virtual : Bool
