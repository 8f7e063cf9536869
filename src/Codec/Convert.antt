-- ===== src/Codec/Convert.antt =====
-- crates/quicview-codec/src/convert.rs: pixel conversion.
pub mod Laws
use quicview.Prelude.{
  ℕ, ◌*◌, ◌/◌, ◌%◌, List, [], ◌∷◌, Result, ok, err, length, ◌==◌, if◌then◌else◌, not,
}
use quicview.Codec.Error.{CodecError, buffer_mismatch}

abbrev mismatch : ℕ → CodecError
mismatch n = buffer_mismatch (n / 4 * 4) n

-- `chunks_exact_mut(4)` with `swap(0, 2)`; a shorter rest stays as it is.
unfoldable pub swap_chunks : List ℕ → List ℕ
swap_chunks (b ∷ g ∷ r ∷ a ∷ rest) = r ∷ g ∷ b ∷ a ∷ swap_chunks rest
swap_chunks rest = rest

-- In place: the buffer afterwards, and the result.
unfoldable pub bgra_to_rgba : List ℕ → List ℕ × Result CodecError (Unit {0})
unfolding swap_chunks
bgra_to_rgba buf =
    if not (length buf % 4 == 0)
    then (buf, err (mismatch (length buf)))
    else (swap_chunks buf, ok tt)

-- `chunks_exact(4)`, the first three bytes of each.
unfoldable pub drop_alpha : List ℕ → List ℕ
drop_alpha (r ∷ g ∷ b ∷ a ∷ rest) = r ∷ g ∷ b ∷ drop_alpha rest
drop_alpha rest = []

unfoldable pub rgba_to_rgb : List ℕ → Result CodecError (List ℕ)
unfolding drop_alpha
rgba_to_rgb rgba =
    if not (length rgba % 4 == 0) then err (mismatch (length rgba)) else ok (drop_alpha rgba)
