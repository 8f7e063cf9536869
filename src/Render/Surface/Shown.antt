-- ===== src/Render/Surface/Shown.antt =====
-- What a surface shows after any calls, byte by byte.
use quicview.Prelude.{
  ℕ, zero, suc, ◌≡◌, refl, ap, ◌∙◌, List, [], ◌∷◌, Result, ok, err, length, replicate, ◌==◌, arith,
  if◌then◌else◌, ltb, length-replicate, Bool-cases, ==_iff, inl, inr,
}
use mathlib.Core.Path.{subst}
use quicview.Protocol.Display.{DisplayId, Resolution}
use quicview.Render.Error.{DisplayError}
use quicview.Render.Surface.{
  MemorySurface, buf_len, new, resize_bytes, resize, size_mismatch, present, Call, resizes,
  presents, step, run,
}
use quicview.Render.Surface.Sized.{IsSized, present_lem, step-IsSized}

-- The byte at an index, and 0 beyond the end.
abbrev pub byte_at : List ℕ → ℕ → ℕ
byte_at [] i = 0
byte_at (b ∷ bs) zero = b
byte_at (b ∷ bs) (suc i) = byte_at bs i

-- A picture: a resolution, and the byte at every index.
abbrev pub Picture : Type 0
Picture = Resolution × (ℕ → ℕ)

-- A resize blanks what does not fit; pixels of another size are ignored.
abbrev pub pictured : Picture → Call → Picture
pictured (q, f) (resizes r) = (r, λ i. if ltb i (buf_len r) then f i else 0)
pictured (q, f) (presents pixels) =
    if length pixels == buf_len q then (q, byte_at pixels) else (q, f)

abbrev pub pictured_all : Picture → List Call → Picture
pictured_all p [] = p
pictured_all p (c ∷ cs) = pictured_all (pictured p c) cs

abbrev pub answer : Resolution → Call → Result DisplayError (Unit {0})
answer q (resizes r) = ok tt
answer q (presents pixels) =
    if length pixels == buf_len q then ok tt else err (size_mismatch (length pixels) (buf_len q))

abbrev pub Shows : MemorySurface → Picture → Type 0
Shows s p = IsSized s × (s.resolution ≡ p.0) × ((i : ℕ) → byte_at s.buffer i ≡ p.1 i)

byte_at-resize_bytes :
    (n : ℕ) (bs : List ℕ) (i : ℕ)
    → byte_at (resize_bytes n bs) i ≡ (if ltb i n then byte_at bs i else 0)
unfolding resize_bytes
byte_at-resize_bytes zero bs i = ground arith
byte_at-resize_bytes (suc n) [] zero = ground arith
byte_at-resize_bytes (suc n) (b ∷ bs) zero = ground arith
byte_at-resize_bytes (suc n) [] (suc i) = ground (arith, byte_at-resize_bytes n [] i)
byte_at-resize_bytes (suc n) (b ∷ bs) (suc i) = ground (arith, byte_at-resize_bytes n bs i)

byte_at-replicate : (n i : ℕ) → byte_at (replicate n 0) i ≡ 0
byte_at-replicate zero i = refl
byte_at-replicate (suc n) zero = refl
byte_at-replicate (suc n) (suc i) = byte_at-replicate n i

present_at :
    (s : MemorySurface) (f : ℕ → ℕ) (pixels : List ℕ)
    → IsSized s
    → ((i : ℕ) → byte_at s.buffer i ≡ f i)
    → Shows (present s pixels).0 (pictured (s.resolution, f) (presents pixels))
      × ((present s pixels).1 ≡ answer s.resolution (presents pixels))
present_at s f pixels h k = elim (Bool-cases (length pixels == buf_len s.resolution)) [
  | inl fits ↦ rw (present_lem s pixels h, fits) (((==_iff _ _).0 fits, refl, λ i. refl), refl)
  | inr other ↦ rw (present_lem s pixels h, other) ((h, refl, k), refl)
]

present-Shows :
    (s : MemorySurface) (p : Picture) (pixels : List ℕ)
    → Shows s p
    → Shows (present s pixels).0 (pictured p (presents pixels))
      × ((present s pixels).1 ≡ answer p.0 (presents pixels))
present-Shows s (q, f) pixels (h, e, k) =
    subst
      (λ q.
        Shows (present s pixels).0 (pictured (q, f) (presents pixels))
        × ((present s pixels).1 ≡ answer q (presents pixels)))
      e (present_at s f pixels h k)

step-Shows :
    (s : MemorySurface) (p : Picture) (c : Call)
    → Shows s p
    → Shows (step s c).0 (pictured p c) × ((step s c).1 ≡ answer p.0 c)
unfolding step resize
step-Shows s (q, f) (resizes r) (h, e, k) = (
  (
    step-IsSized s (resizes r) h,
    refl,
    λ i.
        byte_at-resize_bytes (buf_len r) s.buffer i
        ∙ ap (λ b. if ltb i (buf_len r) then b else 0) (k i),
  ),
  refl,
)
step-Shows s p (presents pixels) h = present-Shows s p pixels h

run-Shows_from :
    (s : MemorySurface) (p : Picture) (cs : List Call)
    → Shows s p
    → Shows (run s cs) (pictured_all p cs)
unfolding run
run-Shows_from s p [] h = h
run-Shows_from s p (c ∷ cs) h = run-Shows_from (step s c).0 (pictured p c) cs (step-Shows s p c h).0

-- After any calls on a new surface its buffer has the length of its resolution, and shows, byte by
-- byte, the picture of the calls: blank at first; the pixels last presented with the size that the
-- surface then had; blank where a resize since then cut them off, even if a larger one followed. A
-- call that follows answers as its size asks, and never panics.
pub run-Shows :
    (d : DisplayId) (r : Resolution) (cs : List Call) (c : Call)
    → let picture = pictured_all (r, λ i. 0) cs in
      Shows (run (new d r) cs) picture × ((step (run (new d r) cs) c).1 ≡ answer picture.0 c)
unfolding new
run-Shows d r cs c =
    let shown =
      run-Shows_from (new d r) (r, λ i. 0) cs
        (length-replicate (buf_len r) 0, refl, byte_at-replicate (buf_len r)) in
    (shown, (step-Shows _ _ c shown).1)
