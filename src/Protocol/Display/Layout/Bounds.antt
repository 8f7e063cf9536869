-- ===== src/Protocol/Display/Layout/Bounds.antt =====
-- The least and greatest value of a list, and the extent between two `i32` values.
use quicview.Prelude.{ℕ, ◌<◌, ◌≡◌, List, [], ◌∷◌, map, arith, All}
use quicview.Prelude.Int.{
  ℤ, pos, ◌+ℤ◌, ◌-ℤ◌, ◌≤ℤ◌, to_u32, to_i32, wrap_i32, IsI32, to_u32-lt, to_u32-to_i32,
  wrap_i32_fits,
}
use quicview.Protocol.Display.Layout.{
  DisplayEntry, lesser, greater, min_from, max_from, right_edge, bottom_edge, OnDesktop,
}

lesser_lower : (m z : ℤ) → (lesser m z ≤ℤ m) × (lesser m z ≤ℤ z)
unfolding lesser
lesser_lower m z = ground arith

lesser_greatest : (b m z : ℤ) → b ≤ℤ m → b ≤ℤ z → b ≤ℤ lesser m z
unfolding lesser
lesser_greatest b m z h k = ground arith

greater_upper : (m z : ℤ) → (m ≤ℤ greater m z) × (z ≤ℤ greater m z)
unfolding greater
greater_upper m z = ground arith

greater_least : (b m z : ℤ) → m ≤ℤ b → z ≤ℤ b → greater m z ≤ℤ b
unfolding greater
greater_least b m z h k = ground arith

module _ (f : DisplayEntry → ℤ) where
  pub min_from-lower :
      (m : ℤ) (es : List DisplayEntry)
      → (min_from m (map f es) ≤ℤ m) × All (λ e. min_from m (map f es) ≤ℤ f e) es
  unfolding min_from
  min_from-lower m [] = (omega arith, tt)
  min_from-lower m (e ∷ es) =
      let ih = min_from-lower (lesser m (f e)) es in
      (omega (arith, ih.0, lesser_lower m (f e)), (omega (arith, ih.0, lesser_lower m (f e)), ih.1))

  pub min_from-greatest :
      (b m : ℤ) (es : List DisplayEntry)
      → b ≤ℤ m
      → All (λ e. b ≤ℤ f e) es
      → b ≤ℤ min_from m (map f es)
  unfolding min_from
  min_from-greatest b m [] h hs = h
  min_from-greatest b m (e ∷ es) h hs =
      min_from-greatest b (lesser m (f e)) es (lesser_greatest b m (f e) h hs.0) hs.1

  pub max_from-upper :
      (m : ℤ) (es : List DisplayEntry)
      → (m ≤ℤ max_from m (map f es)) × All (λ e. f e ≤ℤ max_from m (map f es)) es
  unfolding max_from
  max_from-upper m [] = (omega arith, tt)
  max_from-upper m (e ∷ es) =
      let ih = max_from-upper (greater m (f e)) es in
      (
        omega (arith, ih.0, greater_upper m (f e)),
        (omega (arith, ih.0, greater_upper m (f e)), ih.1),
      )

  pub max_from-least :
      (b m : ℤ) (es : List DisplayEntry)
      → m ≤ℤ b
      → All (λ e. f e ≤ℤ b) es
      → max_from m (map f es) ≤ℤ b
  unfolding max_from
  max_from-least b m [] h hs = h
  max_from-least b m (e ∷ es) h hs =
      max_from-least b (greater m (f e)) es (greater_least b m (f e) h hs.0) hs.1

difference_as_u32 : (m n : ℤ) → IsI32 m → IsI32 n → m ≤ℤ n → m +ℤ pos (to_u32 (n -ℤ m)) ≡ n
unfolding ◌+ℤ◌ ◌-ℤ◌ to_u32
difference_as_u32 m n hm hn h = ground arith

-- A difference that is taken in `i32` and cast to `u32` is exact, also where it wraps.
pub extent_exact :
    (m n : ℤ) → IsI32 m → IsI32 n → m ≤ℤ n → m +ℤ pos (to_u32 (wrap_i32 (n -ℤ m))) ≡ n
unfolding wrap_i32
extent_exact m n hm hn h =
    rw (to_u32-to_i32 (to_u32 (n -ℤ m)) (to_u32-lt (n -ℤ m))) (difference_as_u32 m n hm hn h)

to_i32_small : (n : ℕ) → n < 2147483648 → to_i32 n ≡ pos n
unfolding to_i32
to_i32_small n h = ground arith

pub right_edge_exact :
    (e : DisplayEntry) → OnDesktop e → right_edge e ≡ e.x +ℤ pos e.resolution.width
right_edge_exact e (_, _, w, _, fits, _) =
    rw (to_i32_small e.resolution.width w) (wrap_i32_fits _ fits)

pub bottom_edge_exact :
    (e : DisplayEntry) → OnDesktop e → bottom_edge e ≡ e.y +ℤ pos e.resolution.height
bottom_edge_exact e (_, _, _, h, _, fits) =
    rw (to_i32_small e.resolution.height h) (wrap_i32_fits _ fits)
