-- ===== src/Protocol/Display/Sizes.antt =====
-- Buffer sizes: the two descriptions of a pixel's size agree, and sizes that fit do not wrap.
use native.Mathlib.Nat.{mod-eq_of_lt}
use quicview.Prelude.{ℕ, ◌*◌, ◌%◌, ◌^◌, ◌≡◌, some, arith}
use quicview.Protocol.Display.{
  Resolution, IsResolution, PixelFormat, bgra8, rgba8, rgb8, nv12, pixel_count, bytes_per_pixel,
  buffer_size,
}

-- The pixel count of two `u32` sides never wraps in `u64`.
pixel_count_exact : (r : Resolution) → IsResolution r → pixel_count r ≡ r.width * r.height
unfolding pixel_count
pixel_count_exact r h = grind (arith, mod-eq_of_lt)

-- For a format with a number of bytes per pixel, and `u32` sides, the buffer holds that many bytes
-- for each pixel, modulo 2 ^ 64.
pub buffer_size-bytes_per_pixel :
    (f : PixelFormat) (r : Resolution) (n : ℕ)
    → IsResolution r
    → bytes_per_pixel f ≡ some n
    → buffer_size f r ≡ r.width * r.height * n % 2 ^ 64
unfolding bytes_per_pixel buffer_size
buffer_size-bytes_per_pixel bgra8 r n h e = ground (arith, pixel_count_exact r h)
buffer_size-bytes_per_pixel rgba8 r n h e = ground (arith, pixel_count_exact r h)
buffer_size-bytes_per_pixel rgb8 r n h e = ground (arith, pixel_count_exact r h)
buffer_size-bytes_per_pixel nv12 r n h e = ground arith
