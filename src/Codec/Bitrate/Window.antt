-- ===== src/Codec/Bitrate/Window.antt =====
-- With timestamps that do not fall, the window holds exactly the recent frames.
use mathlib.Core.List.{filter}
use native.Mathlib.Decide.{dec_le, dec_lt}
use quicview.Prelude.{
  ℕ, ◌-◌, ◌≤◌, ◌≡◌, refl, List, [], ◌∷◌, ◌++◌, arith, All, Bool-cases, ltb, inl, inr, All-map,
  All-append,
}
use quicview.Codec.Bitrate.{
  BitrateController, adjust_quality, push_frame, record_frame, evict, measured_bps,
}
use quicview.Codec.Bitrate.Quality.{adjust_to_keeps}

-- Timestamps do not fall along the window.
abbrev pub Ascending : List (ℕ × ℕ) → Type 0
Ascending [] = Unit {0}
Ascending ((t, size) ∷ w) = All (λ (f : ℕ × ℕ). t ≤ f.0) w × Ascending w

abbrev pub recent : ℕ → List (ℕ × ℕ) → List (ℕ × ℕ)
recent cutoff = filter (λ f. dec_le cutoff f.0)

recent-All :
    (cutoff : ℕ) (w : List (ℕ × ℕ)) → All (λ (f : ℕ × ℕ). cutoff ≤ f.0) w → recent cutoff w ≡ w
recent-All cutoff [] h = refl
recent-All cutoff ((t, size) ∷ w) h = ground (arith, recent-All cutoff w h.1)

evict-recent : (cutoff : ℕ) (w : List (ℕ × ℕ)) → Ascending w → evict cutoff w ≡ recent cutoff w
unfolding evict
evict-recent cutoff [] a = refl
evict-recent cutoff ((t, size) ∷ w) a = elim (dec_lt t cutoff) [
  | yes old ↦ ground (arith, evict-recent cutoff w a.1)
  | no new ↦ ground (
    arith,
    recent-All cutoff w
        (All-map (λ (f : ℕ × ℕ). t ≤ f.0) (λ (f : ℕ × ℕ). cutoff ≤ f.0) w (λ f h. omega arith) a.0),
  )
]

Ascending-append :
    (t size : ℕ) (w : List (ℕ × ℕ))
    → Ascending w
    → All (λ (f : ℕ × ℕ). f.0 ≤ t) w
    → Ascending (w ++ ((t, size) ∷ []))
Ascending-append t size [] a h = (tt, tt)
Ascending-append t size ((u, s) ∷ w) a h =
    (All-append (λ (f : ℕ × ℕ). u ≤ f.0) w _ a.0 (h.0, tt), Ascending-append t size w a.1 h.1)

evict-Ascending : (cutoff : ℕ) (w : List (ℕ × ℕ)) → Ascending w → Ascending (evict cutoff w)
unfolding evict
evict-Ascending cutoff [] a = a
evict-Ascending cutoff ((t, size) ∷ w) a = elim (Bool-cases (ltb t cutoff)) [
  | inl old ↦ rw old (evict-Ascending cutoff w a.1)
  | inr new ↦ rw new a
]

pub window_after :
    (c : BitrateController) (t size : ℕ)
    → (record_frame c (t, size)).window ≡ evict (t - c.window_ms) (c.window ++ ((t, size) ∷ []))
unfolding record_frame adjust_quality push_frame
window_after c t size =
    (adjust_to_keeps (measured_bps (push_frame c (t, size))) (push_frame c (t, size))).0

-- When the window's timestamps do not fall and none is later than the new frame's, recording the
-- frame leaves exactly the old frames and the new one that are no older than the window's duration
-- before it, and their timestamps still do not fall.
pub record_frame-recent :
    (c : BitrateController) (t size : ℕ)
    → Ascending c.window
    → All (λ (f : ℕ × ℕ). f.0 ≤ t) c.window
    → ((record_frame c (t, size)).window ≡ recent (t - c.window_ms) (c.window ++ ((t, size) ∷ [])))
      × Ascending (record_frame c (t, size)).window
record_frame-recent c t size a h =
    let joined = Ascending-append t size c.window a h in
    rw (window_after c t size)
      (evict-recent (t - c.window_ms) _ joined, evict-Ascending (t - c.window_ms) _ joined)
