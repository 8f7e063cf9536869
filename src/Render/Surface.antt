-- ===== src/Render/Surface.antt =====
-- crates/quicview-display/src/surface.rs: the surface in memory. The length of the buffer is a `u32`
-- product, which wraps as in a release build.
pub mod Sized
pub mod Shown
use quicview.Prelude.{
  ℕ, zero, suc, ◌*◌, ◌%◌, ◌^◌, List, [], ◌∷◌, String, concat, show, Result, ok, err, panic, length,
  replicate, ◌==◌, if◌then◌else◌,
}
use quicview.Protocol.Display.{DisplayId, Resolution}
use quicview.Render.Error.{DisplayError, render_failed}

pub record MemorySurface : Type 0 where
  pub display_id : DisplayId
  pub resolution : Resolution
  pub buffer : List ℕ

-- `(width * height * 4) as usize`.
abbrev pub buf_len : Resolution → ℕ
buf_len r = r.width * r.height % 2 ^ 32 * 4 % 2 ^ 32

unfoldable pub new : DisplayId → Resolution → MemorySurface
new d r = record { display_id = d; resolution = r; buffer = replicate (buf_len r) 0 }

-- `Vec::resize` with a zero byte: the first `n` bytes, filled up with zeros.
unfoldable pub resize_bytes : ℕ → List ℕ → List ℕ
resize_bytes zero bs = []
resize_bytes (suc n) [] = 0 ∷ resize_bytes n []
resize_bytes (suc n) (b ∷ bs) = b ∷ resize_bytes n bs

unfoldable pub resize : MemorySurface → Resolution → MemorySurface × Result DisplayError (Unit {0})
unfolding resize_bytes
resize s r = (record s { resolution = r; buffer = resize_bytes (buf_len r) s.buffer }, ok tt)

abbrev pub size_mismatch : ℕ → ℕ → DisplayError
size_mismatch got expected =
    render_failed
      (concat ("buffer size mismatch: got " ∷ show got ∷ " expected " ∷ show expected ∷ []))

-- `copy_from_slice` panics if the lengths differ.
unfoldable pub copy_from_slice :
    MemorySurface → List ℕ → MemorySurface × Result DisplayError (Unit {0})
copy_from_slice s pixels =
    if length s.buffer == length pixels then (record s { buffer = pixels }, ok tt) else (s, panic)

unfoldable pub present : MemorySurface → List ℕ → MemorySurface × Result DisplayError (Unit {0})
unfolding copy_from_slice
present s pixels =
    let expected = buf_len s.resolution in
    if length pixels == expected
    then copy_from_slice s pixels
    else (s, err (size_mismatch (length pixels) expected))

-- The calls that change the surface.
pub data Call : Type 0 where
  resizes : Resolution → Call
  presents : List ℕ → Call

unfoldable pub step : MemorySurface → Call → MemorySurface × Result DisplayError (Unit {0})
unfolding resize present
step s (resizes r) = resize s r
step s (presents pixels) = present s pixels

unfoldable pub run : MemorySurface → List Call → MemorySurface
unfolding step
run s [] = s
run s (c ∷ cs) = run (step s c).0 cs
