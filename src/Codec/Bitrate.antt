-- ===== src/Codec/Bitrate.antt =====
-- crates/quicview-codec/src/bitrate.rs: the adaptive bitrate controller. `u64` arithmetic wraps, as
-- in a release build.
pub mod Quality
pub mod Pace
pub mod Window
pub mod Steady
use quicview.Prelude.{
  ℕ, ◌+◌, ◌-◌, ◌*◌, ◌/◌, ◌%◌, ◌^◌, min, max, List, [], ◌∷◌, ◌++◌, Bool, length, ltb, leb,
  if◌then◌else◌,
}

pub record BitrateController : Type 0 where
  pub target_bps : ℕ
  pub quality : ℕ
  pub window : List (ℕ × ℕ)
  pub window_ms : ℕ
  pub over_budget_count : ℕ
  pub under_budget_count : ℕ

unfoldable pub new : ℕ → BitrateController
new target = record {
  target_bps = target;
  quality = 80;
  window = [];
  window_ms = 2000;
  over_budget_count = 0;
  under_budget_count = 0;
}

unfoldable pub set_target_bps : BitrateController → ℕ → BitrateController
set_target_bps c target = record c { target_bps = target }

-- The sizes' sum, in `usize`.
unfoldable pub total_bytes : List (ℕ × ℕ) → ℕ
total_bytes [] = 0
total_bytes ((t, size) ∷ w) = (size + total_bytes w) % 2 ^ 64

-- The last timestamp of a window that begins with `t`.
unfoldable pub last_from : ℕ → List (ℕ × ℕ) → ℕ
last_from t [] = t
last_from t ((t', size) ∷ w) = last_from t' w

-- `0` for a window of less than two frames.
unfoldable pub window_bps : List (ℕ × ℕ) → ℕ
unfolding total_bytes last_from
window_bps [] = 0
window_bps (f ∷ []) = 0
window_bps ((t, size) ∷ f ∷ w) =
    let duration = max (last_from t (f ∷ w) - t) 1 in
    total_bytes ((t, size) ∷ f ∷ w) * 8 % 2 ^ 64 * 1000 % 2 ^ 64 / duration

unfoldable pub measured_bps : BitrateController → ℕ
unfolding window_bps
measured_bps c = window_bps c.window

unfoldable pub should_skip_frame : BitrateController → Bool
unfolding measured_bps
should_skip_frame c = ltb (c.target_bps * 3 % 2 ^ 64 / 2) (measured_bps c)

-- `adjust_quality` once the bitrate is measured.
unfoldable pub adjust_to : ℕ → BitrateController → BitrateController
adjust_to measured c =
    if ltb c.target_bps measured
    then (let over = (c.over_budget_count + 1) % 2 ^ 32 in
        if leb 3 over
        then record c {
          quality = max (c.quality - 5) 10;
          over_budget_count = 0;
          under_budget_count = 0;
        }
        else record c { over_budget_count = over; under_budget_count = 0 })
    else if ltb measured (c.target_bps * 3 % 2 ^ 64 / 4)
    then (let under = (c.under_budget_count + 1) % 2 ^ 32 in
        if leb 5 under
        then record c {
          quality = min ((c.quality + 5) % 2 ^ 8) 100;
          over_budget_count = 0;
          under_budget_count = 0;
        }
        else record c { over_budget_count = 0; under_budget_count = under })
    else record c { over_budget_count = 0; under_budget_count = 0 }

unfoldable pub adjust_quality : BitrateController → BitrateController
unfolding adjust_to measured_bps
adjust_quality c = adjust_to (measured_bps c) c

-- Drops the entries at the front that are older than the cutoff.
unfoldable pub evict : ℕ → List (ℕ × ℕ) → List (ℕ × ℕ)
evict cutoff [] = []
evict cutoff ((t, size) ∷ w) = if ltb t cutoff then evict cutoff w else (t, size) ∷ w

-- The frame joins the window, and the window is cut to its duration.
unfoldable pub push_frame : BitrateController → ℕ × ℕ → BitrateController
unfolding evict
push_frame c (t, size) = record c {
  window = evict (t - c.window_ms) (c.window ++ ((t, size) ∷ []));
}

unfoldable pub record_frame : BitrateController → ℕ × ℕ → BitrateController
record_frame c f = adjust_quality (push_frame c f)

-- A sequence of frames.
unfoldable pub record_all : BitrateController → List (ℕ × ℕ) → BitrateController
record_all c [] = c
record_all c (f ∷ fs) = record_all (record_frame c f) fs
