-- ===== src/Protocol/Display/Layout/Box.antt =====
-- The bounding box is the least box that holds every entry.
use quicview.Prelude.{ℕ, ◌≡◌, List, ◌∷◌, map, arith, All, All-both, All-map}
use quicview.Prelude.Int.{
  ℤ, pos, negsuc, ◌+ℤ◌, ◌-ℤ◌, ◌≤ℤ◌, +ℤ_parts, to_u32, wrap_i32, IsI32, IsI32_bounds, IsI32-between,
  ≤ℤ_trans,
}
use quicview.Protocol.Display.Layout.{
  DisplayEntry, min_from, max_from, right_edge, bottom_edge, OnDesktop, Inside, Within,
  bounding_box,
}
use quicview.Protocol.Display.Layout.Bounds.{
  min_from-lower, min_from-greatest, max_from-upper, max_from-least, extent_exact, right_edge_exact,
  bottom_edge_exact,
}

-- One axis: the low sides, and the low sides plus the lengths, which the code computes as `edge`.
module _ (low edge : DisplayEntry → ℤ) (size : DisplayEntry → ℕ) (IsFine : DisplayEntry → Type 0)
    (fine_low : (e : DisplayEntry) → IsFine e → IsI32 (low e))
    (fine_edge : (e : DisplayEntry) → IsFine e → IsI32 (low e +ℤ pos (size e)))
    (edge_exact : (e : DisplayEntry) → IsFine e → edge e ≡ low e +ℤ pos (size e)) where
  abbrev least : DisplayEntry → List DisplayEntry → ℤ
  least e es = min_from (low e) (map low es)

  abbrev greatest : DisplayEntry → List DisplayEntry → ℤ
  greatest e es = max_from (edge e) (map edge es)

  abbrev extent : DisplayEntry → List DisplayEntry → ℕ
  extent e es = to_u32 (wrap_i32 (greatest e es -ℤ least e es))

  edge-IsI32 : (e : DisplayEntry) → IsFine e → IsI32 (edge e)
  edge-IsI32 e h = rw (edge_exact e h) (fine_edge e h)

  below-all :
      (e : DisplayEntry) (es : List DisplayEntry)
      → All IsFine (e ∷ es)
      → negsuc 2147483647 ≤ℤ least e es
  below-all e es h =
      min_from-greatest low (negsuc 2147483647) (low e) es (IsI32_bounds _ (fine_low e h.0)).0 (
        All-map IsFine (λ e'. negsuc 2147483647 ≤ℤ low e') es
          (λ e' h'. (IsI32_bounds _ (fine_low e' h')).0) h.1)

  above-all :
      (e : DisplayEntry) (es : List DisplayEntry)
      → All IsFine (e ∷ es)
      → greatest e es ≤ℤ pos 2147483647
  above-all e es h =
      max_from-least edge (pos 2147483647) (edge e) es (IsI32_bounds _ (edge-IsI32 e h.0)).1 (
        All-map IsFine (λ e'. edge e' ≤ℤ pos 2147483647) es
          (λ e' h'. (IsI32_bounds _ (edge-IsI32 e' h')).1) h.1)

  low-le-edge : (e : DisplayEntry) → IsFine e → low e ≤ℤ edge e
  low-le-edge e h = rw (edge_exact e h) (omega (arith, +ℤ_parts (low e) (pos (size e))))

  least-le-greatest :
      (e : DisplayEntry) (es : List DisplayEntry)
      → All IsFine (e ∷ es)
      → least e es ≤ℤ greatest e es
  least-le-greatest e es h =
      ≤ℤ_trans _ (edge e) _
        (≤ℤ_trans _ (low e) _ (min_from-lower low (low e) es).0 (low-le-edge e h.0))
        (max_from-upper edge (edge e) es).0

  extent_ends :
      (e : DisplayEntry) (es : List DisplayEntry)
      → All IsFine (e ∷ es)
      → least e es +ℤ pos (extent e es) ≡ greatest e es
  extent_ends e es h =
      extent_exact (least e es) (greatest e es)
        (IsI32-between _ (below-all e es h) (
          ≤ℤ_trans (least e es) (low e) (pos 2147483647) (min_from-lower low (low e) es).0
            (IsI32_bounds (low e) (fine_low e h.0)).1))
        (IsI32-between _
          (≤ℤ_trans (negsuc 2147483647) (edge e) (greatest e es)
            (IsI32_bounds _ (edge-IsI32 e h.0)).0 (max_from-upper edge (edge e) es).0)
          (above-all e es h))
        (least-le-greatest e es h)

  abbrev LiesIn : ℤ → ℕ → DisplayEntry → Type 0
  LiesIn start len e = (start ≤ℤ low e) × (low e +ℤ pos (size e) ≤ℤ start +ℤ pos len)

  extent_holds :
      (e : DisplayEntry) (es : List DisplayEntry)
      → All IsFine (e ∷ es)
      → All (LiesIn (least e es) (extent e es)) (e ∷ es)
  extent_holds e es h =
      All-both (λ e'. (least e es ≤ℤ low e') × (edge e' ≤ℤ greatest e es)) IsFine
        (LiesIn (least e es) (extent e es)) (e ∷ es)
        (λ e' b h'. (b.0, rw (extent_ends e es h, ← edge_exact e' h') b.1))
        (All-both (λ e'. least e es ≤ℤ low e') (λ e'. edge e' ≤ℤ greatest e es) _ (e ∷ es)
          (λ e' a b. (a, b)) (min_from-lower low (low e) es) (max_from-upper edge (edge e) es))
        h

  extent_least :
      (e : DisplayEntry) (es : List DisplayEntry) (start : ℤ) (len : ℕ)
      → All IsFine (e ∷ es)
      → All (LiesIn start len) (e ∷ es)
      → (start ≤ℤ least e es) × (least e es +ℤ pos (extent e es) ≤ℤ start +ℤ pos len)
  extent_least e es start len h b = (
    min_from-greatest low start (low e) es b.0.0
        (All-map (LiesIn start len) (λ e'. start ≤ℤ low e') es (λ e' b'. b'.0) b.1),
    rw (extent_ends e es h) (
        max_from-least edge (start +ℤ pos len) (edge e) es (rw (edge_exact e h.0) b.0.1) (
          All-both (LiesIn start len) IsFine (λ e'. edge e' ≤ℤ start +ℤ pos len) es
            (λ e' b' h'. rw (edge_exact e' h') b'.1) b.1 h.1)),
  )

abbrev x_of : DisplayEntry → ℤ
x_of e = e.x

abbrev y_of : DisplayEntry → ℤ
y_of e = e.y

fine_x : (e : DisplayEntry) → OnDesktop e → IsI32 (x_of e)
fine_x e h = h.0

fine_y : (e : DisplayEntry) → OnDesktop e → IsI32 (y_of e)
fine_y e h = h.1

fine_right : (e : DisplayEntry) → OnDesktop e → IsI32 (x_of e +ℤ pos e.resolution.width)
fine_right e h = h.4

fine_bottom : (e : DisplayEntry) → OnDesktop e → IsI32 (y_of e +ℤ pos e.resolution.height)
fine_bottom e h = h.5

abbrev width_of : DisplayEntry → ℕ
width_of e = e.resolution.width

abbrev height_of : DisplayEntry → ℕ
height_of e = e.resolution.height

-- The box of a layout with at least one entry, all on the `i32` desktop, holds every entry.
bounding_box_holds :
    (e : DisplayEntry) (es : List DisplayEntry)
    → All OnDesktop (e ∷ es)
    → All (Inside (bounding_box (record { entries = e ∷ es }))) (e ∷ es)
unfolding bounding_box
bounding_box_holds e es h =
    All-both (LiesIn x_of right_edge width_of OnDesktop fine_x fine_right right_edge_exact _ _)
      (LiesIn y_of bottom_edge height_of OnDesktop fine_y fine_bottom bottom_edge_exact _ _) _
      (e ∷ es) (λ e' a b. (a.0, b.0, a.1, b.1))
      (extent_holds x_of right_edge width_of OnDesktop fine_x fine_right right_edge_exact e es h)
      (extent_holds y_of bottom_edge height_of OnDesktop fine_y fine_bottom bottom_edge_exact e es
        h)

-- The box of a layout with at least one entry, all on the `i32` desktop, lies in any box that holds
-- every entry.
bounding_box_least :
    (e : DisplayEntry) (es : List DisplayEntry) (b : ℤ × ℤ × ℕ × ℕ)
    → All OnDesktop (e ∷ es)
    → All (Inside b) (e ∷ es)
    → Within (bounding_box (record { entries = e ∷ es })) b
unfolding bounding_box
bounding_box_least e es b h i =
    let across =
      extent_least x_of right_edge width_of OnDesktop fine_x fine_right right_edge_exact e es b.0
        b.2 h (All-map (Inside b) _ (e ∷ es) (λ e' i'. (i'.0, i'.2)) i) in
    let down =
      extent_least y_of bottom_edge height_of OnDesktop fine_y fine_bottom bottom_edge_exact e es
        b.1 b.3 h (All-map (Inside b) _ (e ∷ es) (λ e' i'. (i'.1, i'.3)) i) in
    (across.0, down.0, across.1, down.1)

-- The box of a layout with at least one entry, all on the `i32` desktop, holds every entry, and lies
-- in any box that holds every entry.
pub bounding_box_smallest :
    (e : DisplayEntry) (es : List DisplayEntry) (b : ℤ × ℤ × ℕ × ℕ)
    → All OnDesktop (e ∷ es)
    → All (Inside b) (e ∷ es)
    → All (Inside (bounding_box (record { entries = e ∷ es }))) (e ∷ es)
      × Within (bounding_box (record { entries = e ∷ es })) b
bounding_box_smallest e es b h i = (bounding_box_holds e es h, bounding_box_least e es b h i)
