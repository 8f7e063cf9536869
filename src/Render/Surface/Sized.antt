-- ===== src/Render/Surface/Sized.antt =====
-- The surface's buffer always has the length that its resolution asks for.
use quicview.Prelude.{
  ℕ, zero, suc, ◌≡◌, ◌≢◌, refl, ap, List, [], ◌∷◌, ok, err, panic, length, length-replicate, ◌==◌,
  arith, if◌then◌else◌,
}
use quicview.Protocol.Display.{DisplayId, Resolution}
use quicview.Render.Surface.{
  MemorySurface, buf_len, new, resize_bytes, resize, size_mismatch, copy_from_slice, present, Call,
  resizes, presents, step, run,
}

abbrev pub IsSized : MemorySurface → Type 0
IsSized s = length s.buffer ≡ buf_len s.resolution

length-resize_bytes : (n : ℕ) (bs : List ℕ) → length (resize_bytes n bs) ≡ n
unfolding resize_bytes
length-resize_bytes zero bs = refl
length-resize_bytes (suc n) [] = ap suc (length-resize_bytes n [])
length-resize_bytes (suc n) (b ∷ bs) = ap suc (length-resize_bytes n bs)

-- What `present` comes to where the buffer has the resolution's length: the pixels are taken if they
-- have that length too, and else refused with nothing changed; the copy never panics.
pub present_lem :
    (s : MemorySurface) (pixels : List ℕ)
    → IsSized s
    → present s pixels ≡ (
        if length pixels == buf_len s.resolution
        then (record s { buffer = pixels }, ok tt)
        else (s, err (size_mismatch (length pixels) (buf_len s.resolution))))
unfolding present copy_from_slice
present_lem s pixels h = ground arith

pub step-IsSized : (s : MemorySurface) (c : Call) → IsSized s → IsSized (step s c).0
unfolding step resize
step-IsSized s (resizes r) h = length-resize_bytes (buf_len r) s.buffer
step-IsSized s (presents pixels) h = ground (arith, present_lem s pixels h)

step_no_panic : (s : MemorySurface) (c : Call) → IsSized s → (step s c).1 ≢ panic
unfolding step resize
step_no_panic s (resizes r) h e = ground arith
step_no_panic s (presents pixels) h e = ground (arith, present_lem s pixels h)

run-IsSized_from : (s : MemorySurface) (cs : List Call) → IsSized s → IsSized (run s cs)
unfolding run
run-IsSized_from s [] h = h
run-IsSized_from s (c ∷ cs) h = run-IsSized_from (step s c).0 cs (step-IsSized s c h)

-- After any calls on a new surface its buffer has the length of its resolution, and no call that
-- follows panics.
run-IsSized :
    (d : DisplayId) (r : Resolution) (cs : List Call) (c : Call)
    → IsSized (run (new d r) cs) × ((step (run (new d r) cs) c).1 ≢ panic)
unfolding new
run-IsSized d r cs c =
    let sized = run-IsSized_from (new d r) cs (length-replicate (buf_len r) 0) in
    (sized, step_no_panic _ c sized)
