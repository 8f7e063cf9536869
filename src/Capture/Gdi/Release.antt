-- ===== src/Capture/Gdi/Release.antt =====
-- Every handle that gdi.rs gets is given back on every path.
use quicview.Prelude.{
  ℕ, ◌⊎◌, ◌*◌, ◌^◌, ◌<◌, ◌≤◌, ◌≡◌, ◌≢◌, Bool, true, false, not, Option, none, some, List, ◌∷◌,
  arith, ◌==◌, if◌then◌else◌, Bool-cases, inl, inr, length, replicate, length-replicate,
}
use quicview.Prelude.Int.{ℤ, pos_part, to_i32}
use quicview.Capture.Gdi.{
  Gdi, GdiCaptureSource, grab, with_screen, with_mem, copy_screen, read_back, give_back, Grabbed,
  header, buf_size,
}
use quicview.Capture.Gdi.Ledger.{
  GdiCall, got_dc, made_dc, made_bitmap, selected, blitted, read_bits, holds, Held, nothing_held,
  replay, logged,
}

-- Both ways of a test.
pub if-holds :
    {A : Type 0} (P : A → Type 0) (b : Bool) {x y : A} → P x → P y → P (if b then x else y)
if-holds P true px py = px
if-holds P false px py = py

-- `SelectObject` returns what was selected before, which a bitmap made just now was not.
abbrev pub SelectsFresh : {O : Type 0} → Gdi O → Type 0
SelectsFresh {O = O} g =
    (screen mem : ℕ) (w h : ℤ) (o : O)
    → (g.create_compatible_bitmap screen w h o).1 ≢ 0
    → (g.select_object mem (g.create_compatible_bitmap screen w h o).1
        (g.create_compatible_bitmap screen w h o).0).1
      ≢ (g.create_compatible_bitmap screen w h o).1

-- What is given back is taken: an object that `SelectObject` replaced can be selected again, and a
-- bitmap or a context is deleted, and the context of the screen released.
pub record GivesBack {O : Type 0} (g : Gdi O) : Type 0 where
  pub restores :
      (mem x : ℕ) (o o' : O)
      → (g.select_object mem x o).1 ≢ 0
      → (g.select_object mem (g.select_object mem x o).1 o').1 ≢ 0
  pub deletes_object : (bitmap : ℕ) (o : O) → (g.delete_object bitmap o).1 ≢ 0
  pub deletes_dc : (mem : ℕ) (o : O) → (g.delete_dc mem o).1 ≢ 0
  pub releases_dc : (screen : ℕ) (o : O) → (g.release_dc screen o).1 ≢ 0

module _ {O : Type 0} (g : Gdi O) (s : GdiCaptureSource) (fresh : SelectsFresh g)
    (gives : GivesBack g) (fits : s.resolution.width * s.resolution.height * 4 < 2 ^ 32)
    (narrow : s.resolution.width < 2 ^ 31) where
  abbrev log_of : Grabbed (O × List GdiCall) → List GdiCall
  log_of r = r.1.1

  -- Either the bitmap is not selected, or what it replaced can be selected again.
  abbrev Freed : ℕ → ℕ → ℕ → Option ℕ → Type 0
  Freed mem bitmap old chosen =
      (holds chosen bitmap ≡ false) ⊎ ((o : O) → (g.select_object mem old o).1 ≢ 0)

  give_back-replay :
      (screen mem bitmap old : ℕ) (chosen : Option ℕ) (o : O) (log : List GdiCall)
      → old ≢ bitmap
      → Freed mem bitmap old chosen
      → replay log
        ≡ some
            (record { screen = some screen; mem = some mem; bitmap = some bitmap; chosen = chosen })
      → replay (give_back (logged g) s screen mem bitmap old (o, log)).1 ≡ some nothing_held
  unfolding give_back
  give_back-replay screen mem bitmap old chosen o log ne freed h =
      let o1 = (g.select_object mem old o).0 in
      let o2 = (g.delete_object bitmap o1).0 in
      let o3 = (g.delete_dc mem o2).0 in
      let deleted = gives.deletes_object bitmap o1 in
      let closed = gives.deletes_dc mem o2 in
      let released = gives.releases_dc screen o3 in
      elim freed [
        | inl e ↦ ground (arith, e, deleted, closed, released)
        | inr back ↦ ground (arith, back o, deleted, closed, released)
      ]

  abbrev all_held : ℕ → ℕ → ℕ → Option ℕ → Held
  all_held screen mem bitmap chosen = record {
    screen = some screen;
    mem = some mem;
    bitmap = some bitmap;
    chosen = chosen;
  }

  -- What the system writes is no more than the buffer holds.
  enough :
      pos_part (to_i32 s.resolution.width) * s.resolution.height * 4
      ≤ length (replicate {A = ℕ} (buf_size (logged g) s) 0)
  unfolding to_i32
  enough = rw (length-replicate {A = ℕ} (buf_size (logged g) s) 0) (grind arith)

  read_back-replay :
      (screen mem bitmap old : ℕ) (chosen : Option ℕ) (o : O) (log : List GdiCall)
      → old ≢ bitmap
      → Freed mem bitmap old chosen
      → replay log ≡ some (all_held screen mem bitmap chosen)
      → replay (log_of (read_back (logged g) s screen mem bitmap old (o, log))) ≡ some nothing_held
  unfolding read_back
  read_back-replay screen mem bitmap old chosen o log ne freed h =
      let need = pos_part (to_i32 s.resolution.width) * s.resolution.height * 4 in
      let size = length (replicate {A = ℕ} (buf_size (logged g) s) 0) in
      let le : need ≤ size = enough in
      let q =
        g.get_di_bits mem bitmap s.resolution.height (replicate (buf_size (logged g) s) 0)
          (header (logged g) s) o in
      let log2 = read_bits mem bitmap need size ∷ log in
      let held : replay log2 ≡ some (all_held screen mem bitmap chosen) = ground arith in
      let given_back = give_back-replay screen mem bitmap old chosen q.0 log2 ne freed held in
      elim (Bool-cases (q.2 == 0)) [ inl e ↦ rw e given_back | inr e ↦ rw e given_back ]

  copy_screen-replay :
      (screen mem bitmap : ℕ) (o : O) (log : List GdiCall)
      → (g.select_object mem bitmap o).1 ≢ bitmap
      → replay log ≡ some (all_held screen mem bitmap none)
      → replay (log_of (copy_screen (logged g) s screen mem bitmap (o, log))) ≡ some nothing_held
  unfolding copy_screen
  copy_screen-replay screen mem bitmap o log ne h =
      let a = g.select_object mem bitmap o in
      let b = g.bit_blt mem (to_i32 s.resolution.width) (to_i32 s.resolution.height) screen a.0 in
      let log2 = blitted mem screen ∷ selected mem bitmap a.1 ∷ log in
      let chosen : Option ℕ = if a.1 == 0 then none else some bitmap in
      let held : replay log2 ≡ some (all_held screen mem bitmap chosen) = ground arith in
      let freed : Freed mem bitmap a.1 chosen = elim (Bool-cases (a.1 == 0)) [
        | inl e ↦ inl (ground (arith, e))
        | inr e ↦ inr (λ o'. gives.restores mem bitmap o o' (ground (arith, e)))
      ] in
      elim (Bool-cases (b.1 == 0)) [
        | inl e ↦ rw e (give_back-replay screen mem bitmap a.1 chosen b.0 log2 ne freed held)
        | inr e ↦ rw e (read_back-replay screen mem bitmap a.1 chosen b.0 log2 ne freed held)
      ]

  with_mem-replay :
      (screen mem : ℕ) (o : O) (log : List GdiCall)
      → replay log ≡ some (record nothing_held { screen = some screen; mem = some mem })
      → replay (log_of (with_mem (logged g) s screen mem (o, log))) ≡ some nothing_held
  unfolding with_mem
  with_mem-replay screen mem o log held =
      let w = to_i32 s.resolution.width in
      let h = to_i32 s.resolution.height in
      let made = g.create_compatible_bitmap screen w h o in
      elim (Bool-cases (made.1 == 0)) [
        | inl e ↦
            let closed = gives.deletes_dc mem made.0 in
            let released = gives.releases_dc screen (g.delete_dc mem made.0).0 in
            rw e (ground (arith, closed, released))
        | inr e ↦ rw e (
            copy_screen-replay screen mem made.1 made.0 (made_bitmap screen made.1 ∷ log)
              (fresh screen mem w h o (ground arith)) (ground arith))
      ]

  with_screen-replay :
      (screen : ℕ) (o : O) (log : List GdiCall)
      → replay log ≡ some (record nothing_held { screen = some screen })
      → replay (log_of (with_screen (logged g) s screen (o, log))) ≡ some nothing_held
  unfolding with_screen
  with_screen-replay screen o log h =
      let made = g.create_compatible_dc screen o in
      elim (Bool-cases (made.1 == 0)) [
        | inl e ↦ let released = gives.releases_dc screen made.0 in rw e (ground (arith, released))
        | inr e ↦
            rw e (with_mem-replay screen made.1 made.0 (made_dc screen made.1 ∷ log) (ground arith))
      ]

  -- From a log of calls after which nothing is held, `grab` runs to its end, whichever of its other
  -- calls fail, and after it nothing is held again: no handle is used that is not held, none is lost,
  -- no bitmap is deleted while selected, and the bits fit in the buffer. The conditions: what is
  -- given back is taken, `SelectObject` with a bitmap made just now returns another object, the frame
  -- has less than 2^32 bytes, and the screen is narrower than 2^31.
  pub grab-replay :
      (o : O) (log : List GdiCall)
      → replay log ≡ some nothing_held
      → replay (log_of (grab (logged g) s (o, log))) ≡ some nothing_held
  unfolding grab
  grab-replay o log h =
      let got = g.get_dc o in
      let done : Grabbed (O × List GdiCall) → Type 0 = λ r. replay (log_of r) ≡ some nothing_held in
      if-holds done (not s.is_active) h (elim (Bool-cases (got.1 == 0)) [
        | inl e ↦ rw e (ground arith)
        | inr e ↦ rw e (with_screen-replay got.1 got.0 (got_dc got.1 ∷ log) (ground arith))
      ])
