-- ===== src/Codec/Delta/Desync.antt =====
-- `reset` on one side only. A payload does not say whether it is a key frame, and a receiver that
-- holds a frame of the same size takes it for a difference.
use quicview.Prelude.{
  ℕ, ◌≡◌, refl, ap, ap₂, ◌∙◌, ◌↔◌, Option, some, List, [], ◌∷◌, Result, ok, ◌>>=◌, length, arith,
  All,
}
use quicview.Prelude.Bits.{bit_xor_fixed, bit_xor-zero_right}
use quicview.Codec.Error.{CodecError}
use quicview.Codec.Delta.{DeltaCodec, reset, xor_frames, encode, encode_after, decode, decode_after}

abbrev pub IsBlank : List ℕ → Type 0
IsBlank = All (λ b. b ≡ 0)

xor_frames_fixed : (xs ys : List ℕ) → length ys ≡ length xs → xor_frames xs ys ≡ xs → IsBlank ys
unfolding xor_frames
xor_frames_fixed [] [] h e = tt
xor_frames_fixed [] (y ∷ ys) h e = absurd (omega arith)
xor_frames_fixed (x ∷ xs) [] h e = absurd (omega arith)
xor_frames_fixed (x ∷ xs) (y ∷ ys) h e =
    (bit_xor_fixed x y (cc), xor_frames_fixed xs ys (omega arith) (cc))

xor_frames_blank : (xs ys : List ℕ) → length ys ≡ length xs → IsBlank ys → xor_frames xs ys ≡ xs
unfolding xor_frames
xor_frames_blank [] ys h b = refl
xor_frames_blank (x ∷ xs) [] h b = absurd (omega arith)
xor_frames_blank (x ∷ xs) (y ∷ ys) h b =
    ap₂ ◌∷◌ (rw b.0 (bit_xor-zero_right x)) (xor_frames_blank xs ys (omega arith) b.1)

-- What a receiver makes of the payload that a sender produces just after `reset`.
pub after_reset : DeltaCodec → DeltaCodec → List ℕ → Result CodecError (List ℕ)
unfolding reset encode decode
after_reset sender receiver raw = do
  payload ← (encode (reset sender) raw).1
  (decode receiver payload).1

after_reset_lem :
    (sender receiver : DeltaCodec) (raw : List ℕ)
    → after_reset sender receiver raw ≡ ok (decode_after receiver.prev_frame raw)
unfolding after_reset encode_after
after_reset_lem sender receiver raw = refl

decode_after_same_size :
    (prev raw : List ℕ)
    → length prev ≡ length raw
    → decode_after (some prev) raw ≡ xor_frames raw prev
unfolding decode_after
decode_after_same_size prev raw h = ground arith

after_reset_same_size :
    (sender receiver : DeltaCodec) (prev raw : List ℕ)
    → receiver.prev_frame ≡ some prev
    → length prev ≡ length raw
    → after_reset sender receiver raw ≡ ok (xor_frames raw prev)
after_reset_same_size sender receiver prev raw held same =
    after_reset_lem sender receiver raw
    ∙ ap ok (
        ap (λ (p : Option (List ℕ)). decode_after p raw) held
        ∙ decode_after_same_size prev raw same)

-- When the sender is reset and the receiver, which is not, holds a frame of the size of the next
-- one, the receiver gets the frame that was sent exactly when the frame it held was all zero.
pub reset_desync :
    (sender receiver : DeltaCodec) (prev raw : List ℕ)
    → receiver.prev_frame ≡ some prev
    → length prev ≡ length raw
    → (after_reset sender receiver raw ≡ ok raw) ↔ IsBlank prev
reset_desync sender receiver prev raw held same = (
  λ e.
      xor_frames_fixed raw prev same
        (cc (after_reset_same_size sender receiver prev raw held same)),
  λ b.
      after_reset_same_size sender receiver prev raw held same
      ∙ ap ok (xor_frames_blank raw prev same b),
)
