-- ===== src/Codec/Bitrate/Quality.antt =====
-- The quality stays in its range, and it falls and rises at the stated pace.
use quicview.Prelude.{
  ℕ, ◌+◌, ◌-◌, ◌*◌, ◌/◌, ◌%◌, ◌^◌, ◌<◌, ◌≤◌, min, max, ◌≡◌, ◌⊎◌, List, [], ◌∷◌, arith,
}
use quicview.Codec.Bitrate.{
  BitrateController, new, measured_bps, adjust_to, adjust_quality, push_frame, record_frame,
  record_all,
}

-- The quality is from 10 to 100, the counters are below their limits, and one of them is zero.
pub record IsTuned (c : BitrateController) : Type 0 where
  pub floor : 10 ≤ c.quality
  pub ceiling : c.quality ≤ 100
  pub over_fits : c.over_budget_count < 3
  pub under_fits : c.under_budget_count < 5
  pub one_zero : (c.over_budget_count ≡ 0) ⊎ (c.under_budget_count ≡ 0)

adjust_to-IsTuned : (m : ℕ) (c : BitrateController) → IsTuned c → IsTuned (adjust_to m c)
unfolding adjust_to
adjust_to-IsTuned m c v = ground arith

pub push_frame-IsTuned : (c : BitrateController) (f : ℕ × ℕ) → IsTuned c → IsTuned (push_frame c f)
unfolding push_frame
push_frame-IsTuned c (t, size) v = record {
  floor = v.floor;
  ceiling = v.ceiling;
  over_fits = v.over_fits;
  under_fits = v.under_fits;
  one_zero = v.one_zero;
}

pub record_frame-IsTuned :
    (c : BitrateController) (f : ℕ × ℕ) → IsTuned c → IsTuned (record_frame c f)
unfolding record_frame adjust_quality
record_frame-IsTuned c f v =
    adjust_to-IsTuned (measured_bps (push_frame c f)) (push_frame c f) (push_frame-IsTuned c f v)

pub record_all-IsTuned :
    (c : BitrateController) (fs : List (ℕ × ℕ)) → IsTuned c → IsTuned (record_all c fs)
unfolding record_all
record_all-IsTuned c [] v = v
record_all-IsTuned c (f ∷ fs) v =
    record_all-IsTuned (record_frame c f) fs (record_frame-IsTuned c f v)

new-IsTuned : (target : ℕ) → IsTuned (new target)
unfolding new
new-IsTuned target = record {
  floor = omega arith;
  ceiling = omega arith;
  over_fits = omega arith;
  under_fits = omega arith;
  one_zero = omega arith;
}

-- Whatever frames a new controller records, at whatever times and of whatever sizes, its quality
-- stays from 10 to 100, and its counters below 3 and 5 with one of them zero.
pub record_all-new-IsTuned : (target : ℕ) (fs : List (ℕ × ℕ)) → IsTuned (record_all (new target) fs)
record_all-new-IsTuned target fs = record_all-IsTuned (new target) fs (new-IsTuned target)

-- What one frame does to a controller that it leaves over budget, or under three quarters of it.
pub adjust_to_over :
    (m : ℕ) (c : BitrateController)
    → IsTuned c
    → c.target_bps < m
    → let d = adjust_to m c in
      ((c.over_budget_count ≡ 2) × (d.over_budget_count ≡ 0) × (d.quality ≡ max (c.quality - 5) 10))
      ⊎ ((c.over_budget_count < 2)
          × (d.over_budget_count ≡ c.over_budget_count + 1)
          × (d.quality ≡ c.quality))
unfolding adjust_to
adjust_to_over m c v h = ground arith

pub adjust_to_under :
    (m : ℕ) (c : BitrateController)
    → IsTuned c
    → m ≤ c.target_bps
    → m < c.target_bps * 3 % 2 ^ 64 / 4
    → let d = adjust_to m c in
      ((c.under_budget_count ≡ 4)
        × (d.under_budget_count ≡ 0)
        × (d.quality ≡ min (c.quality + 5) 100))
      ⊎ ((c.under_budget_count < 4)
          × (d.under_budget_count ≡ c.under_budget_count + 1)
          × (d.quality ≡ c.quality))
unfolding adjust_to
adjust_to_under m c v h k = ground arith

pub adjust_to_keeps :
    (m : ℕ) (c : BitrateController)
    → ((adjust_to m c).window ≡ c.window)
      × ((adjust_to m c).target_bps ≡ c.target_bps)
      × ((adjust_to m c).window_ms ≡ c.window_ms)
unfolding adjust_to
adjust_to_keeps m c = ground arith
