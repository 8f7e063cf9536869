-- ===== src/Codec/Bitrate/Steady.antt =====
-- The rate that is measured for a steady stream: frames of one size, one every `p` milliseconds.
use native.Mathlib.Nat.{le-div_iff_mul-le, div-lt_iff_lt-mul}
use native.Mathlib.Decide.{dec_le}
use mathlib.Core.Path.{subst}
use quicview.Prelude.{
  ℕ, zero, suc, ◌+◌, ◌-◌, ◌*◌, ◌/◌, ◌^◌, ◌<◌, ◌≤◌, min, ◌≡◌, refl, ap, ap₂, sym, ◌∙◌, List, [], ◌∷◌,
  ◌++◌, arith,
}
use quicview.Codec.Bitrate.{
  BitrateController, new, total_bytes, last_from, window_bps, measured_bps, evict, adjust_quality,
  push_frame, record_frame, record_all,
}
use quicview.Codec.Bitrate.Quality.{adjust_to_keeps}
use quicview.Codec.Bitrate.Window.{window_after}

-- `n` frames of `b` bytes, the first at the time `t`.
abbrev pub steady : ℕ → ℕ → ℕ → ℕ → List (ℕ × ℕ)
steady p b t zero = []
steady p b t (suc n) = (t, b) ∷ steady p b (t + p) n

steady_snoc : (p b t n : ℕ) → steady p b t n ++ ((t + p * n, b) ∷ []) ≡ steady p b t (suc n)
steady_snoc p b t zero = ap (λ u. (u, b) ∷ []) (omega arith)
steady_snoc p b t (suc n) =
    ap (λ w. (t, b) ∷ w)
      (ap (λ u. steady p b (t + p) n ++ ((u, b) ∷ [])) (omega arith) ∙ steady_snoc p b (t + p) n)

-- The window stays whole while its frames span no more than its duration.
evict_none :
    (p b t n w : ℕ)
    → p * n ≤ w
    → evict (t + p * n - w) (steady p b t (suc n)) ≡ steady p b t (suc n)
unfolding evict
evict_none p b t n w h = ground arith

-- With one frame too many, the first one goes.
evict_one :
    (p b t n w : ℕ)
    → p * n ≤ w
    → w < p * suc n
    → evict (t + p * suc n - w) (steady p b t (suc (suc n))) ≡ steady p b (t + p) (suc n)
unfolding evict
evict_one p b t n w h k = ground arith

total_bytes-steady : (p b t n : ℕ) → n * b < 2 ^ 64 → total_bytes (steady p b t n) ≡ n * b
unfolding total_bytes
total_bytes-steady p b t zero h = omega arith
total_bytes-steady p b t (suc n) h = omega (arith, total_bytes-steady p b (t + p) n (omega arith))

last_from-steady : (p b t n : ℕ) → last_from t (steady p b (t + p) n) ≡ t + p * n
unfolding last_from
last_from-steady p b t zero = omega arith
last_from-steady p b t (suc n) = last_from-steady p b (t + p) n ∙ omega arith

window_bps-steady :
    (p b t m : ℕ)
    → 0 < p
    → suc (suc m) * b * 8000 < 2 ^ 64
    → window_bps (steady p b t (suc (suc m))) ≡ suc (suc m) * b * 8000 / (suc m * p)
unfolding window_bps
window_bps-steady p b t m h k =
    let sum = total_bytes-steady p b (t + p + p) m (omega (arith, k)) in
    let last = last_from-steady p b (t + p) m in
    ap₂ (λ x d. x / d) (omega (arith, k, sum)) (omega (arith, h, last))

record_frame-window_ms :
    (c : BitrateController) (f : ℕ × ℕ) → (record_frame c f).window_ms ≡ c.window_ms
unfolding record_frame adjust_quality push_frame
record_frame-window_ms c (t, size) =
    (adjust_to_keeps (measured_bps (push_frame c (t, size))) (push_frame c (t, size))).2

-- The frames that a window of `w` milliseconds holds, one every `p`.
abbrev capacity : ℕ → ℕ → ℕ
capacity p w = suc (w / p)

module _ (p b : ℕ) where
  span_fits : (w n : ℕ) → 0 < p → n ≤ w / p → p * n ≤ w
  span_fits w n h k = omega (arith, (le-div_iff_mul-le {k = p} {x = n} {y = w} h).0 k)

  span_full : (w n : ℕ) → 0 < p → w / p < n → w < p * n
  span_full w n h k = omega (arith, (div-lt_iff_lt-mul {k = p} {x = w} {y = n} h).0 k)

  joins_lem :
      (c : BitrateController) (u n : ℕ)
      → 0 < p
      → c.window ≡ steady p b u n
      → n ≤ c.window_ms / p
      → (record_frame c (u + p * n, b)).window ≡ steady p b u (suc n)
  joins_lem c u n h e k =
      window_after c (u + p * n) b
      ∙ ap (λ w. evict (u + p * n - c.window_ms) (w ++ ((u + p * n, b) ∷ []))) e
      ∙ ap (evict (u + p * n - c.window_ms)) (steady_snoc p b u n)
      ∙ evict_none p b u n c.window_ms (span_fits c.window_ms n h k)

  replaces_lem :
      (c : BitrateController) (u : ℕ)
      → 0 < p
      → c.window ≡ steady p b u (capacity p c.window_ms)
      → (record_frame c (u + p * capacity p c.window_ms, b)).window
        ≡ steady p b (u + p) (capacity p c.window_ms)
  replaces_lem c u h e =
      let n = c.window_ms / p in
      window_after c (u + p * suc n) b
      ∙ ap (λ w. evict (u + p * suc n - c.window_ms) (w ++ ((u + p * suc n, b) ∷ []))) e
      ∙ ap (evict (u + p * suc n - c.window_ms)) (steady_snoc p b u (suc n))
      ∙ evict_one p b u n c.window_ms (span_fits c.window_ms n h (omega arith))
          (span_full c.window_ms (suc n) h (omega arith))

  run_steady :
      (k : ℕ) (c : BitrateController) (u n w : ℕ)
      → 0 < p
      → c.window_ms ≡ w
      → c.window ≡ steady p b u n
      → n ≤ capacity p w
      → (u' : ℕ) × ((record_all c (steady p b (u + p * n) k)).window
          ≡ steady p b u' (min (n + k) (capacity p w)))
  unfolding record_all
  run_steady zero c u n w h d e f = (u, e ∙ ap (steady p b u) (omega (arith, f)))
  run_steady (suc k) c u n w h d e f =
      let c' = record_frame c (u + p * n, b) in
      let d' = record_frame-window_ms c (u + p * n, b) ∙ d in
      elim (dec_le n (w / p)) [
        | yes room ↦
            let e' = joins_lem c u n h e (omega (arith, room, ap (λ v. v / p) d)) in
            let (u', found) = run_steady k c' u (suc n) w h d' e' (omega (arith, room)) in
            (
              u',
              ap (λ t. (record_all c' (steady p b t k)).window) (omega arith)
                  ∙ found
                  ∙ ap (steady p b u') (omega arith),
            )
        | no full ↦
            let q : n ≡ capacity p c.window_ms = omega (arith, full, f, ap (λ v. v / p) d) in
            let e' =
              subst
                (λ n.
                  c.window ≡ steady p b u n
                  → (record_frame c (u + p * n, b)).window ≡ steady p b (u + p) n)
                (sym q) (replaces_lem c u h) e in
            let (u', found) = run_steady k c' (u + p) n w h d' e' f in
            (
              u',
              ap (λ t. (record_all c' (steady p b t k)).window) (omega arith)
                  ∙ found
                  ∙ ap (steady p b u') (omega (arith, full, f)),
            )
      ]

rate_lem :
    (p b t n : ℕ)
    → 0 < p
    → 2 ≤ n
    → n * b * 8000 < 2 ^ 64
    → window_bps (steady p b t n) ≡ n * b * 8000 / ((n - 1) * p)
rate_lem p b t zero h two k = absurd (omega (arith, two))
rate_lem p b t (suc zero) h two k = absurd (omega (arith, two))
rate_lem p b t (suc (suc m)) h two k =
    window_bps-steady p b t m h k ∙ ap (λ x. suc (suc m) * b * 8000 / (x * p)) (omega arith)

-- A new controller recorded a steady stream, frames of `b` bytes and one every `p` milliseconds. Let
-- `n` be how many there were, at most `2000 / p + 1`. If `n` is at least 2 and the frames' `b * 8000`
-- fit in 64 bits, the measured rate is that of `n` frames over `n - 1` intervals.
pub measured_bps-steady :
    (target p b t k : ℕ)
    → 0 < p
    → 2 ≤ min k (2000 / p + 1)
    → min k (2000 / p + 1) * b * 8000 < 2 ^ 64
    → let n = min k (2000 / p + 1) in
      measured_bps (record_all (new target) (steady p b t k)) ≡ n * b * 8000 / ((n - 1) * p)
unfolding measured_bps new
measured_bps-steady target p b t k h two fits =
    let (u, found) = run_steady p b k (new target) t 0 2000 h refl refl (omega arith) in
    ap window_bps (
      ap (λ t. (record_all (new target) (steady p b t k)).window) (omega arith)
      ∙ found
      ∙ ap (steady p b u) (omega arith))
    ∙ rate_lem p b u (min k (2000 / p + 1)) h two fits
