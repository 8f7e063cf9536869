-- ===== src/Codec/Convert/Laws.antt =====
-- The conversions keep every channel in its place, and refuse exactly the misaligned buffers.
use quicview.Prelude.{
  ℕ, zero, suc, ◌+◌, ◌*◌, ◌/◌, ◌%◌, ◌<◌, ◌≡◌, ◌≢◌, refl, ap, ◌↔◌, List, [], ◌∷◌, ok, err, length,
  arith, get_elem?,
}
use quicview.Codec.Error.{CodecError, buffer_mismatch}
use quicview.Codec.Convert.{swap_chunks, bgra_to_rgba, drop_alpha, rgba_to_rgb}

swap_chunks_twice : (buf : List ℕ) → swap_chunks (swap_chunks buf) ≡ buf
unfolding swap_chunks
swap_chunks_twice (b ∷ g ∷ r ∷ a ∷ rest) =
    ap (λ (t : List ℕ). b ∷ g ∷ r ∷ a ∷ t) (swap_chunks_twice rest)
swap_chunks_twice _ = refl

length-swap_chunks : (buf : List ℕ) → length (swap_chunks buf) ≡ length buf
unfolding swap_chunks
length-swap_chunks (b ∷ g ∷ r ∷ a ∷ rest) = omega (arith, length-swap_chunks rest)
length-swap_chunks _ = refl

-- Converting a buffer twice gives it back, whatever its length: a misaligned buffer is left as it
-- was both times.
bgra_to_rgba_twice : (buf : List ℕ) → (bgra_to_rgba (bgra_to_rgba buf).0).0 ≡ buf
unfolding bgra_to_rgba
bgra_to_rgba_twice buf = ground (arith, swap_chunks_twice buf, length-swap_chunks buf)

get_elem?-drop_alpha :
    (buf : List ℕ) (i c : ℕ)
    → c < 3
    → length buf % 4 ≡ 0
    → get_elem? (drop_alpha buf) (i * 3 + c) ≡ get_elem? buf (i * 4 + c)
unfolding drop_alpha
get_elem?-drop_alpha [] i c h m = refl
get_elem?-drop_alpha (x ∷ []) i c h m = absurd (omega arith)
get_elem?-drop_alpha (x ∷ y ∷ []) i c h m = absurd (omega arith)
get_elem?-drop_alpha (x ∷ y ∷ z ∷ []) i c h m = absurd (omega arith)
get_elem?-drop_alpha (r ∷ g ∷ b ∷ a ∷ rest) zero zero h m = refl
get_elem?-drop_alpha (r ∷ g ∷ b ∷ a ∷ rest) zero (suc zero) h m = refl
get_elem?-drop_alpha (r ∷ g ∷ b ∷ a ∷ rest) zero (suc (suc zero)) h m = refl
get_elem?-drop_alpha (r ∷ g ∷ b ∷ a ∷ rest) zero (suc (suc (suc c))) h m = absurd (omega arith)
get_elem?-drop_alpha (r ∷ g ∷ b ∷ a ∷ rest) (suc i) c h m =
    let three : suc i * 3 + c ≡ suc (suc (suc (i * 3 + c))) = omega arith in
    let four : suc i * 4 + c ≡ suc (suc (suc (suc (i * 4 + c)))) = omega arith in
    rw (three, four) (get_elem?-drop_alpha rest i c h (omega arith))

length-drop_alpha :
    (buf : List ℕ) → length buf % 4 ≡ 0 → length (drop_alpha buf) * 4 ≡ length buf * 3
unfolding drop_alpha
length-drop_alpha [] m = refl
length-drop_alpha (x ∷ []) m = absurd (omega arith)
length-drop_alpha (x ∷ y ∷ []) m = absurd (omega arith)
length-drop_alpha (x ∷ y ∷ z ∷ []) m = absurd (omega arith)
length-drop_alpha (r ∷ g ∷ b ∷ a ∷ rest) m = omega (arith, length-drop_alpha rest (omega arith))

rgba_to_rgb_ok :
    (rgba rgb : List ℕ)
    → rgba_to_rgb rgba ≡ ok rgb
    → (length rgba % 4 ≡ 0) × (drop_alpha rgba ≡ rgb)
unfolding rgba_to_rgb
rgba_to_rgb_ok rgba rgb e = ground arith

-- A result holds three bytes for every four, and channel `c` of pixel `i` is the one that the
-- source buffer has at the same place.
pub rgba_to_rgb_channels :
    (rgba rgb : List ℕ) (i c : ℕ)
    → rgba_to_rgb rgba ≡ ok rgb
    → c < 3
    → (length rgb * 4 ≡ length rgba * 3) × (get_elem? rgb (i * 3 + c) ≡ get_elem? rgba (i * 4 + c))
rgba_to_rgb_channels rgba rgb i c e h =
    let (aligned, same) = rgba_to_rgb_ok rgba rgb e in
    rw (← same) (length-drop_alpha rgba aligned, get_elem?-drop_alpha rgba i c h aligned)

-- Both conversions refuse a buffer exactly when its length is no multiple of four, with the whole
-- pixels' length as the expected one.
misaligned_iff :
    (buf : List ℕ)
    → let e : CodecError = buffer_mismatch (length buf / 4 * 4) (length buf) in
      ((rgba_to_rgb buf ≡ err e) ↔ (length buf % 4 ≢ 0))
      × ((bgra_to_rgba buf ≡ (buf, err e)) ↔ (length buf % 4 ≢ 0))
unfolding rgba_to_rgb bgra_to_rgba
misaligned_iff buf = ground arith
