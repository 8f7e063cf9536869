-- ===== src/Protocol/Display/Layout.antt =====
-- The bounding box of a layout (display.rs). `i32` arithmetic wraps, as in a release build.
pub mod Bounds
pub mod Box
use quicview.Prelude.{
  ℕ, zero, suc, ◌+◌, ◌%◌, ◌^◌, ◌<◌, ◌≤◌, ◌≡◌, refl, Bool, List, [], ◌∷◌, map, Option, none, some,
  arith, ltb, if◌then◌else◌, All,
}
use quicview.Prelude.Int.{
  ℤ, pos, negsuc, pos_part, neg_part, ◌+ℤ◌, ◌-ℤ◌, ◌≤ℤ◌, +ℤ_parts, -ℤ_parts, to_u32, to_i32,
  wrap_i32, IsI32, to_u32-lt, to_u32-to_i32, wrap_i32_fits,
}
use quicview.Protocol.Display.{DisplayId, Resolution}

pub record DisplayEntry : Type 0 where
  pub display_id : DisplayId
  pub x : ℤ
  pub y : ℤ
  pub resolution : Resolution

pub record DisplayLayout : Type 0 where
  pub entries : List DisplayEntry

abbrev ltb_ℤ : ℤ → ℤ → Bool
ltb_ℤ a b = ltb (pos_part a + neg_part b) (pos_part b + neg_part a)

-- `Iterator::min` and `max`, with the least or greatest value so far.
lesser : ℤ → ℤ → ℤ
lesser m z = if ltb_ℤ z m then z else m

greater : ℤ → ℤ → ℤ
greater m z = if ltb_ℤ m z then z else m

pub min_from : ℤ → List ℤ → ℤ
unfolding lesser
min_from m [] = m
min_from m (z ∷ zs) = min_from (lesser m z) zs

pub max_from : ℤ → List ℤ → ℤ
unfolding greater
max_from m [] = m
max_from m (z ∷ zs) = max_from (greater m z) zs

unfoldable pub minimum : List ℤ → Option ℤ
unfolding min_from
minimum [] = none
minimum (z ∷ zs) = some (min_from z zs)

unfoldable pub maximum : List ℤ → Option ℤ
unfolding max_from
maximum [] = none
maximum (z ∷ zs) = some (max_from z zs)

abbrev unwrap_or : Option ℤ → ℤ → ℤ
unwrap_or none d = d
unwrap_or (some z) d = z

-- `e.x + e.resolution.width as i32`, and the same for `y`.
abbrev pub right_edge : DisplayEntry → ℤ
right_edge e = wrap_i32 (e.x +ℤ to_i32 e.resolution.width)

abbrev pub bottom_edge : DisplayEntry → ℤ
bottom_edge e = wrap_i32 (e.y +ℤ to_i32 e.resolution.height)

-- The box of a layout that has entries.
pub box : List DisplayEntry → ℤ × ℤ × ℕ × ℕ
unfolding minimum maximum
box es =
    let min_x = unwrap_or (minimum (map (λ (e : DisplayEntry). e.x) es)) (pos 0) in
    let min_y = unwrap_or (minimum (map (λ (e : DisplayEntry). e.y) es)) (pos 0) in
    let max_x = unwrap_or (maximum (map right_edge es)) (pos 0) in
    let max_y = unwrap_or (maximum (map bottom_edge es)) (pos 0) in
    (min_x, min_y, to_u32 (wrap_i32 (max_x -ℤ min_x)), to_u32 (wrap_i32 (max_y -ℤ min_y)))

unfoldable pub bounding_box : DisplayLayout → ℤ × ℤ × ℕ × ℕ
unfolding box
bounding_box l = elim l.entries [ [] ↦ (pos 0, pos 0, 0, 0) | e ∷ es ↦ box (e ∷ es) ]

-- An entry that lies in the `i32` desktop, its right and bottom edges included.
abbrev pub OnDesktop : DisplayEntry → Type 0
OnDesktop e =
    IsI32 e.x
    × IsI32 e.y
    × (e.resolution.width < 2 ^ 31)
    × (e.resolution.height < 2 ^ 31)
    × IsI32 (e.x +ℤ pos e.resolution.width)
    × IsI32 (e.y +ℤ pos e.resolution.height)

-- An entry that lies in a box.
abbrev pub Inside : ℤ × ℤ × ℕ × ℕ → DisplayEntry → Type 0
Inside b e =
    (b.0 ≤ℤ e.x)
    × (b.1 ≤ℤ e.y)
    × (e.x +ℤ pos e.resolution.width ≤ℤ b.0 +ℤ pos b.2)
    × (e.y +ℤ pos e.resolution.height ≤ℤ b.1 +ℤ pos b.3)

-- A box that lies in a box.
abbrev pub Within : ℤ × ℤ × ℕ × ℕ → ℤ × ℤ × ℕ × ℕ → Type 0
Within b c =
    (c.0 ≤ℤ b.0)
    × (c.1 ≤ℤ b.1)
    × (b.0 +ℤ pos b.2 ≤ℤ c.0 +ℤ pos c.2)
    × (b.1 +ℤ pos b.3 ≤ℤ c.1 +ℤ pos c.3)
