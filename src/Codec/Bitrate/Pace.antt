-- ===== src/Codec/Bitrate/Pace.antt =====
-- How fast the quality moves: down by 5 for every three frames over budget in a row, up by 5 for
-- every five frames under three quarters of it.
use quicview.Prelude.{
  ℕ, zero, suc, ◌+◌, ◌-◌, ◌*◌, ◌/◌, ◌%◌, ◌^◌, ◌<◌, ◌≤◌, min, max, ◌≡◌, ap, ◌⊎◌, List, [], ◌∷◌,
  arith, length,
}
use quicview.Codec.Bitrate.{
  BitrateController, window_bps, measured_bps, adjust_quality, push_frame, record_frame, record_all,
}
use quicview.Codec.Bitrate.Quality.{
  IsTuned, push_frame-IsTuned, record_frame-IsTuned, adjust_to_over, adjust_to_under,
  adjust_to_keeps,
}

-- Every frame of a sequence leaves the controller over its budget.
abbrev pub AllOver : BitrateController → List (ℕ × ℕ) → Type 0
AllOver c [] = Unit {0}
AllOver c (f ∷ fs) = let d = record_frame c f in (d.target_bps < measured_bps d) × AllOver d fs

-- Every frame of a sequence leaves it under three quarters of its budget.
abbrev pub AllUnder : BitrateController → List (ℕ × ℕ) → Type 0
AllUnder c [] = Unit {0}
AllUnder c (f ∷ fs) =
    let d = record_frame c f in
    (measured_bps d ≤ d.target_bps)
    × (measured_bps d < d.target_bps * 3 % 2 ^ 64 / 4)
    × AllUnder d fs

measured_after :
    (c : BitrateController) (f : ℕ × ℕ)
    → (measured_bps (record_frame c f) ≡ measured_bps (push_frame c f))
      × ((record_frame c f).target_bps ≡ (push_frame c f).target_bps)
unfolding record_frame adjust_quality measured_bps
measured_after c f =
    let keeps = adjust_to_keeps (measured_bps (push_frame c f)) (push_frame c f) in
    (ap window_bps keeps.0, keeps.1)

over_frame :
    (c : BitrateController) (f : ℕ × ℕ)
    → IsTuned c
    → (record_frame c f).target_bps < measured_bps (record_frame c f)
    → let d = record_frame c f in
      ((c.over_budget_count ≡ 2) × (d.over_budget_count ≡ 0) × (d.quality ≡ max (c.quality - 5) 10))
      ⊎ ((c.over_budget_count < 2)
          × (d.over_budget_count ≡ c.over_budget_count + 1)
          × (d.quality ≡ c.quality))
unfolding record_frame adjust_quality push_frame
over_frame c (t, size) v h =
    let p = push_frame c (t, size) in
    adjust_to_over (measured_bps p) p (push_frame-IsTuned c (t, size) v)
      (omega (arith, h, measured_after c (t, size)))

under_frame :
    (c : BitrateController) (f : ℕ × ℕ)
    → IsTuned c
    → measured_bps (record_frame c f) ≤ (record_frame c f).target_bps
    → measured_bps (record_frame c f) < (record_frame c f).target_bps * 3 % 2 ^ 64 / 4
    → let d = record_frame c f in
      ((c.under_budget_count ≡ 4)
        × (d.under_budget_count ≡ 0)
        × (d.quality ≡ min (c.quality + 5) 100))
      ⊎ ((c.under_budget_count < 4)
          × (d.under_budget_count ≡ c.under_budget_count + 1)
          × (d.quality ≡ c.quality))
unfolding record_frame adjust_quality push_frame
under_frame c (t, size) v h k =
    let p = push_frame c (t, size) in
    adjust_to_under (measured_bps p) p (push_frame-IsTuned c (t, size) v)
      (omega (arith, h, measured_after c (t, size))) (omega (arith, k, measured_after c (t, size)))

three_over :
    (c : BitrateController) (f g h : ℕ × ℕ)
    → IsTuned c
    → AllOver c (f ∷ g ∷ h ∷ [])
    → let d = record_frame (record_frame (record_frame c f) g) h in
      (d.quality ≡ max (c.quality - 5) 10) × IsTuned d
three_over c f g h v over =
    let c1 = record_frame c f in
    let c2 = record_frame c1 g in
    let v1 = record_frame-IsTuned c f v in
    let v2 = record_frame-IsTuned c1 g v1 in
    (
      omega (
        arith,
        v.floor,
        v.over_fits,
        over_frame c f v over.0,
        over_frame c1 g v1 over.1.0,
        over_frame c2 h v2 over.1.1.0,
      ),
      record_frame-IsTuned c2 h v2,
    )

-- From a tuned controller, `3 * k` frames that each leave it over budget lower the quality by
-- `5 * k`, and never below 10.
pub sustained_overload :
    (k : ℕ) (c : BitrateController) (fs : List (ℕ × ℕ))
    → length fs ≡ 3 * k
    → IsTuned c
    → AllOver c fs
    → (record_all c fs).quality ≡ max (c.quality - 5 * k) 10
unfolding record_all
sustained_overload zero c [] e v over = omega (arith, v.floor)
sustained_overload zero c (f ∷ fs) e v over = absurd (omega arith)
sustained_overload (suc k) c [] e v over = absurd (omega arith)
sustained_overload (suc k) c (f ∷ []) e v over = absurd (omega arith)
sustained_overload (suc k) c (f ∷ g ∷ []) e v over = absurd (omega arith)
sustained_overload (suc k) c (f ∷ g ∷ h ∷ fs) e v over =
    let (fell, v') = three_over c f g h v (over.0, (over.1.0, (over.1.1.0, tt))) in
    let rest =
      sustained_overload k (record_frame (record_frame (record_frame c f) g) h) fs (omega arith) v'
        over.1.1.1 in
    omega (arith, rest, fell)

five_under :
    (c : BitrateController) (f g h i j : ℕ × ℕ)
    → IsTuned c
    → AllUnder c (f ∷ g ∷ h ∷ i ∷ j ∷ [])
    → let d =
        record_frame (record_frame (record_frame (record_frame (record_frame c f) g) h) i) j in
      (d.quality ≡ min (c.quality + 5) 100) × IsTuned d
five_under c f g h i j v under =
    let c1 = record_frame c f in
    let c2 = record_frame c1 g in
    let c3 = record_frame c2 h in
    let c4 = record_frame c3 i in
    let v1 = record_frame-IsTuned c f v in
    let v2 = record_frame-IsTuned c1 g v1 in
    let v3 = record_frame-IsTuned c2 h v2 in
    let v4 = record_frame-IsTuned c3 i v3 in
    (
      omega (
        arith,
        v.ceiling,
        v.under_fits,
        under_frame c f v under.0 under.1,
        under_frame c1 g v1 under.2.0 under.2.1,
        under_frame c2 h v2 under.2.2.0 under.2.2.1,
        under_frame c3 i v3 under.2.2.2.0 under.2.2.2.1,
        under_frame c4 j v4 under.2.2.2.2.0 under.2.2.2.2.1,
      ),
      record_frame-IsTuned c4 j v4,
    )

-- From a tuned controller, `5 * k` frames that each leave it under three quarters of its budget
-- raise the quality by `5 * k`, and never above 100.
pub sustained_slack :
    (k : ℕ) (c : BitrateController) (fs : List (ℕ × ℕ))
    → length fs ≡ 5 * k
    → IsTuned c
    → AllUnder c fs
    → (record_all c fs).quality ≡ min (c.quality + 5 * k) 100
unfolding record_all
sustained_slack zero c [] e v under = omega (arith, v.ceiling)
sustained_slack zero c (f ∷ fs) e v under = absurd (omega arith)
sustained_slack (suc k) c [] e v under = absurd (omega arith)
sustained_slack (suc k) c (f ∷ []) e v under = absurd (omega arith)
sustained_slack (suc k) c (f ∷ g ∷ []) e v under = absurd (omega arith)
sustained_slack (suc k) c (f ∷ g ∷ h ∷ []) e v under = absurd (omega arith)
sustained_slack (suc k) c (f ∷ g ∷ h ∷ i ∷ []) e v under = absurd (omega arith)
sustained_slack (suc k) c (f ∷ g ∷ h ∷ i ∷ j ∷ fs) e v under =
    let u1 = under.2 in
    let u2 = u1.2 in
    let u3 = u2.2 in
    let u4 = u3.2 in
    let (rose, v') =
      five_under c f g h i j v
        (under.0, under.1, (u1.0, u1.1, (u2.0, u2.1, (u3.0, u3.1, (u4.0, u4.1, tt))))) in
    let rest =
      sustained_slack k
        (record_frame (record_frame (record_frame (record_frame (record_frame c f) g) h) i) j) fs
        (omega arith) v' u4.2 in
    omega (arith, rest, rose)
