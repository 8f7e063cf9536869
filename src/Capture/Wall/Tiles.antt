-- ===== src/Capture/Wall/Tiles.antt =====
-- Displays of one size on the grid of wall.rs.
use native.Mathlib.Nat.{mul-le-mul_right}
use quicview.Prelude.{
  ℕ, ◌+◌, ◌*◌, ◌^◌, ◌<◌, ◌≤◌, ◌≡◌, ap, ap₂, sym, ◌∙◌, inl, inr, ◌⊎◌, some, List, [], ◌∷◌, map,
  arith, All, Option-cases,
}
use quicview.Prelude.Int.{
  ℤ, pos, pos_part, neg_part, ◌+ℤ◌, ◌*ℤ◌, ◌≤ℤ◌, +ℤ_parts, eq_of_parts, to_i32, IsI32, wrap_i32,
  wrap_i32_fits,
}
use mathlib.Core.Path.{subst, subst₂}
use quicview.Protocol.Display.{Resolution}
use quicview.Protocol.Display.Layout.{DisplayEntry, OnDesktop}
use quicview.Capture.VirtualDisplay.{create}
use quicview.Capture.Wall.{
  SocketAddr, WallClient, DisplayWall, new, lookup, add_client, remove_client, entry_of, layout,
  get_client, Call, adds, removes, step, run,
}
use quicview.Capture.Wall.Entries.{insert-All, remove-All, IfFound, lookup-All}

-- Two displays with no pixel in common: one ends where the other begins or before, on an axis.
abbrev pub Apart : DisplayEntry → DisplayEntry → Type 0
Apart e f =
    (e.x +ℤ pos e.resolution.width ≤ℤ f.x)
    ⊎ (f.x +ℤ pos f.resolution.width ≤ℤ e.x)
    ⊎ (e.y +ℤ pos e.resolution.height ≤ℤ f.y)
    ⊎ (f.y +ℤ pos f.resolution.height ≤ℤ e.y)

-- A place of the grid, of the size of a display, that lies on the desktop.
abbrev pub Fits : Resolution → ℤ → ℤ → Type 0
Fits r x y =
    (r.width < 2 ^ 31)
    × (r.height < 2 ^ 31)
    × IsI32 (x *ℤ pos r.width)
    × IsI32 (y *ℤ pos r.height)
    × IsI32 ((x *ℤ pos r.width) +ℤ pos r.width)
    × IsI32 ((y *ℤ pos r.height) +ℤ pos r.height)

-- Every client is added with a display of the size r, at a place that fits.
abbrev pub IsGridded : Resolution → List Call → Type 0
IsGridded r [] = Unit
IsGridded r (adds a x y s ∷ cs) = (s ≡ r) × Fits r x y × IsGridded r cs
IsGridded r (removes a ∷ cs) = IsGridded r cs

abbrev Sized : Resolution → WallClient → Type 0
Sized r c = (c.resolution ≡ r) × Fits r c.grid_x c.grid_y

*ℤ_parts :
    (a : ℤ) (n : ℕ)
    → pos_part (a *ℤ pos n) + neg_part a * n ≡ neg_part (a *ℤ pos n) + pos_part a * n
unfolding ◌*ℤ◌
*ℤ_parts a n = ground arith

-- One place to the left ends where the next one begins, or before.
before_lem : (a b : ℤ) (n : ℕ) → a +ℤ pos 1 ≤ℤ b → (a *ℤ pos n) +ℤ pos n ≤ℤ b *ℤ pos n
before_lem a b n h =
    let one = +ℤ_parts a (pos 1) in
    let next = +ℤ_parts (a *ℤ pos n) (pos n) in
    let pa = *ℤ_parts a n in
    let pb = *ℤ_parts b n in
    let fits : (pos_part a + neg_part b + 1) * n ≤ (pos_part b + neg_part a) * n =
      mul-le-mul_right n (omega arith) in
    omega arith

sides : (a b : ℤ) → (a ≡ b) ⊎ (a +ℤ pos 1 ≤ℤ b) ⊎ (b +ℤ pos 1 ≤ℤ a)
sides a b =
    let pa = +ℤ_parts a (pos 1) in let pb = +ℤ_parts b (pos 1) in ground (arith, eq_of_parts a b)

step-Sized :
    (r : Resolution) (w : DisplayWall) (c : Call) (cs : List Call)
    → IsGridded r (c ∷ cs)
    → All (Sized r) w.clients
    → All (Sized r) (step w c).clients × IsGridded r cs
unfolding step add_client remove_client create
step-Sized r w (adds a x y s) cs g h = (insert-All (Sized r) _ w.clients (g.0, g.1) h, g.2)
step-Sized r w (removes a) cs g h = elim (Option-cases (lookup a w.clients)) [
  | inl e ↦ rw (e, step) (h, g)
  | inr (c, e) ↦ rw (e, step) (remove-All (Sized r) a w.clients h, g)
]

run-Sized :
    (r : Resolution) (w : DisplayWall) (cs : List Call)
    → IsGridded r cs
    → All (Sized r) w.clients
    → All (Sized r) (run w cs).clients
unfolding run
run-Sized r w [] g h = h
run-Sized r w (c ∷ cs) g h =
    let (h1, g1) = step-Sized r w c cs g h in run-Sized r (step w c) cs g1 h1

-- The entry of such a client, with no wrapping in it.
abbrev tile : Resolution → WallClient → DisplayEntry
tile r c = record {
  display_id = c.display_id;
  x = c.grid_x *ℤ pos r.width;
  y = c.grid_y *ℤ pos r.height;
  resolution = r;
}

to_i32_small : (n : ℕ) → n < 2 ^ 31 → to_i32 n ≡ pos n
unfolding to_i32
to_i32_small n h = ground arith

coordinate_lem :
    (z : ℤ) (n : ℕ) → n < 2 ^ 31 → IsI32 (z *ℤ pos n) → wrap_i32 (z *ℤ to_i32 n) ≡ z *ℤ pos n
coordinate_lem z n h k =
    ap (λ m. wrap_i32 (z *ℤ m)) (to_i32_small n h) ∙ wrap_i32_fits (z *ℤ pos n) k

entry_of-tile : (r : Resolution) (c : WallClient) → Sized r c → entry_of c ≡ tile r c
unfolding entry_of
entry_of-tile r c (e, (fw, fh, fx, fy, gx, gy)) = rw e (
    ap₂ (λ (x y : ℤ). record { display_id = c.display_id; x = x; y = y; resolution = r })
      (coordinate_lem c.grid_x r.width fw fx) (coordinate_lem c.grid_y r.height fh fy))

entry_of_fits : (r : Resolution) (c : WallClient) → Sized r c → OnDesktop (entry_of c)
entry_of_fits r c s =
    let (fw, fh, fx, fy, gx, gy) = s.1 in
    subst OnDesktop (sym (entry_of-tile r c s)) (fx, fy, fw, fh, gx, gy)

tile-Apart :
    (r : Resolution) (c d : WallClient)
    → ((c.grid_x ≡ d.grid_x) × (c.grid_y ≡ d.grid_y)) ⊎ Apart (tile r c) (tile r d)
tile-Apart r c d = elim (sides c.grid_x d.grid_x) [
  | inr (inl left) ↦ inr (inl (before_lem c.grid_x d.grid_x r.width left))
  | inr (inr right) ↦ inr (inr (inl (before_lem d.grid_x c.grid_x r.width right)))
  | inl same_x ↦ elim (sides c.grid_y d.grid_y) [
    | inl same_y ↦ inl (same_x, same_y)
    | inr (inl above) ↦ inr (inr (inr (inl (before_lem c.grid_y d.grid_y r.height above))))
    | inr (inr below) ↦ inr (inr (inr (inr (before_lem d.grid_y c.grid_y r.height below))))
  ]
]

found_Sized :
    (r : Resolution) (w : DisplayWall) (a : SocketAddr) (c : WallClient)
    → All (Sized r) w.clients
    → get_client w a ≡ some c
    → Sized r c
unfolding get_client
found_Sized r w a c h e = subst (IfFound (Sized r)) e (lookup-All (Sized r) a w.clients h)

All-entries :
    (r : Resolution) (cs : List WallClient) → All (Sized r) cs → All OnDesktop (map entry_of cs)
All-entries r [] h = tt
All-entries r (c ∷ cs) h = (entry_of_fits r c h.0, All-entries r cs h.1)

-- On a new wall to which every client is added with displays of one size, at places of the grid that
-- lie on the `i32` desktop, and from which any clients are removed: every display of the layout lies
-- on the desktop, and the displays of two clients at different places have no pixel in common.
pub layout-Apart :
    (r : Resolution) (cs : List Call) (a b : SocketAddr) (c d : WallClient)
    → IsGridded r cs
    → get_client (run new cs) a ≡ some c
    → get_client (run new cs) b ≡ some d
    → All OnDesktop (layout (run new cs)).entries
      × (((c.grid_x ≡ d.grid_x) × (c.grid_y ≡ d.grid_y)) ⊎ Apart (entry_of c) (entry_of d))
unfolding new layout
layout-Apart r cs a b c d g e f =
    let sized = run-Sized r new cs g tt in
    let p = found_Sized r (run new cs) a c sized e in
    let q = found_Sized r (run new cs) b d sized f in
    (
      All-entries r (run new cs).clients sized,
      subst₂ (λ x y. ((c.grid_x ≡ d.grid_x) × (c.grid_y ≡ d.grid_y)) ⊎ Apart x y)
          (sym (entry_of-tile r c p)) (sym (entry_of-tile r d q)) (tile-Apart r c d),
    )
