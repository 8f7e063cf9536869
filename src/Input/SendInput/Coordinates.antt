-- ===== src/Input/SendInput/Coordinates.antt =====
-- The absolute coordinates of sendinput.rs.
use quicview.Prelude.{ℕ, zero, suc, ◌+◌, ◌-◌, ◌^◌, ◌↔◌, ◌*◌, ◌/◌, ◌≤◌, ◌<◌, ◌≡◌, ◌∙◌, ap, arith}
use native.Mathlib.Nat.{div-lt_iff_lt-mul, div-mul-le_self, le-div_iff_mul-le}
use quicview.Prelude.Int.{ℤ, pos, negsuc, pos_part, neg_part, sub_ℕ, ◌*ℤ◌, wrap_i32, wrap_i32_fits}
use quicview.Input.SendInput.{div_trunc, normalise}

-- The share of 65535 that a distance is of the screen, rounded to the edge it is counted from.
abbrev pub share_of : ℤ → ℕ → ℤ
share_of (pos n) k = pos (n * 65535 / k)
share_of (negsuc n) k = sub_ℕ 0 (suc n * 65535 / k)

scaled : (n : ℕ) → pos n *ℤ pos 65535 ≡ pos (n * 65535)
unfolding ◌*ℤ◌
scaled n = ground arith

scaled_neg : (n : ℕ) → negsuc n *ℤ pos 65535 ≡ negsuc (suc n * 65535 - 1)
unfolding ◌*ℤ◌
scaled_neg n = ground arith

-- The coordinate is that share as an `i32`.
pub normalise_lem : (v : ℤ) (k : ℕ) → normalise v k ≡ wrap_i32 (share_of v k)
unfolding normalise
normalise_lem (pos n) k = ap (λ z. wrap_i32 (div_trunc z k)) (scaled n)
normalise_lem (negsuc n) k =
    ap (λ z. wrap_i32 (div_trunc z k)) (scaled_neg n)
    ∙ ap (λ m. wrap_i32 (sub_ℕ 0 (m / k))) (omega arith)

quotient_fits : (n k : ℕ) → n < 32768 * k → n * 65535 / k < 2 ^ 31
quotient_fits n k h =
    (div-lt_iff_lt-mul {k = k} {x = n * 65535} {y = 2 ^ 31} (omega arith)).1 (omega arith)

quotient_step : (m n k : ℕ) → m < n → zero < k → k ≤ 65535 → m * 65535 / k < n * 65535 / k
quotient_step m n k h positive small =
    let a = div-mul-le_self (m * 65535) k in
    let fits : suc (m * 65535 / k) * k ≤ n * 65535 = grind arith in
    (le-div_iff_mul-le {k = k} {x = suc (m * 65535 / k)} {y = n * 65535} positive).1 fits

-- A position that is less than 32768 screens away, on either side.
abbrev pub IsNear : ℤ → ℕ → Type 0
IsNear v k = (pos_part v < 32768 * k) × (neg_part v < 32768 * k)

near_lem : (v : ℤ) (k : ℕ) → IsNear v k → normalise v k ≡ share_of v k
near_lem (pos n) k h =
    normalise_lem (pos n) k
    ∙ wrap_i32_fits (pos (n * 65535 / k)) (omega (arith, quotient_fits n k h.0))
near_lem (negsuc n) k h =
    normalise_lem (negsuc n) k
    ∙ wrap_i32_fits (sub_ℕ 0 (suc n * 65535 / k)) (ground (arith, quotient_fits (suc n) k h.1))

abbrev pub Before : ℤ → ℤ → Type 0
Before a b = pos_part a + neg_part b < pos_part b + neg_part a

-- From 0 to below the limit.
abbrev pub Spans : ℤ → ℕ → Type 0
Spans v k = (neg_part v ≡ 0) × (pos_part v < k)

share_order :
    (a b : ℤ) (k : ℕ) → zero < k → k ≤ 65535 → Before a b → Before (share_of a k) (share_of b k)
share_order (pos m) (pos n) k h l before = omega (arith, quotient_step m n k (omega arith) h l)
share_order (pos m) (negsuc n) k h l before = absurd (omega (arith, before))
share_order (negsuc m) (pos n) k h l before =
    let below = quotient_step 0 (suc m) k (omega arith) h l in ground arith
share_order (negsuc m) (negsuc n) k h l before =
    let step = quotient_step (suc n) (suc m) k (omega (arith, before)) h l in ground arith

share-Spans : (v : ℤ) (k : ℕ) → zero < k → k ≤ 65535 → Spans v k ↔ Spans (share_of v k) 65535
share-Spans (pos n) k h l =
    let below = div-lt_iff_lt-mul {k = k} {x = n * 65535} {y = 65535} h in
    ((λ on. (on.0, below.1 (omega (arith, on)))), (λ b. (b.0, omega (arith, below.0 b.1))))
share-Spans (negsuc n) k h l =
    let off = quotient_step 0 (suc n) k (omega arith) h l in
    ((λ on. absurd (omega (arith, on.0))), (λ b. absurd (ground (arith, b.0))))

-- On a screen of at most 65535 pixels in one direction, for two positions that are less than 32768
-- screens away: if the first is before the second, so are their absolute coordinates; and the
-- second's coordinate is from 0 to 65534 exactly if the position is on the screen: a position beyond
-- the screen, on either side, is not moved to its edge.
pub normalise_order :
    (a b : ℤ) (k : ℕ)
    → IsNear a k
    → IsNear b k
    → k ≤ 65535
    → Before a b
    → Before (normalise a k) (normalise b k) × (Spans b k ↔ Spans (normalise b k) 65535)
normalise_order a b k h l small before =
    let positive : zero < k = omega (arith, h.0) in
    rw (near_lem a k h, near_lem b k l)
      (share_order a b k positive small before, share-Spans b k positive small)
