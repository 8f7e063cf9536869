-- ===== src/Codec/Delta/Stream.antt =====
-- A receiver that has seen all payloads of a sender has the sender's frames.
use quicview.Prelude.{
  ℕ, ◌≡◌, refl, ap, ap₂, Option, none, some, List, [], ◌∷◌, ok, ◌>>=◌, length, arith, suc,
}
use quicview.Prelude.Bits.{bit_xor_cancel}
use quicview.Codec.Delta.{
  DeltaCodec, xor_frames, encode_after, encode, decode_after, decode, encode_all, decode_all,
}

pub length-xor_frames :
    (xs ys : List ℕ) → length ys ≡ length xs → length (xor_frames xs ys) ≡ length xs
unfolding xor_frames
length-xor_frames [] ys h = refl
length-xor_frames (x ∷ xs) [] h = absurd (omega arith)
length-xor_frames (x ∷ xs) (y ∷ ys) h = ap suc (length-xor_frames xs ys (omega arith))

xor_frames_cancel : (xs ys : List ℕ) → length ys ≡ length xs → xor_frames (xor_frames xs ys) ys ≡ xs
unfolding xor_frames
xor_frames_cancel [] ys h = refl
xor_frames_cancel (x ∷ xs) [] h = absurd (omega arith)
xor_frames_cancel (x ∷ xs) (y ∷ ys) h =
    ap₂ ◌∷◌ (bit_xor_cancel x y) (xor_frames_cancel xs ys (omega arith))

-- One frame, with both sides at the same reference frame.
pub decode_after-encode_after :
    (prev : Option (List ℕ)) (raw : List ℕ) → decode_after prev (encode_after prev raw) ≡ raw
unfolding decode_after encode_after
decode_after-encode_after none raw = refl
decode_after-encode_after (some prev) raw =
    ground (arith, length-xor_frames raw prev, xor_frames_cancel raw prev)

-- The payloads of a stream from a reference frame.
payloads_from : Option (List ℕ) → List (List ℕ) → List (List ℕ)
payloads_from prev [] = []
payloads_from prev (raw ∷ rest) = encode_after prev raw ∷ payloads_from (some raw) rest

encode_all_payloads :
    (c : DeltaCodec) (frames : List (List ℕ))
    → encode_all c frames ≡ ok (payloads_from c.prev_frame frames)
unfolding encode_all encode payloads_from
encode_all_payloads c [] = refl
encode_all_payloads c (raw ∷ rest) =
    rw (encode_all_payloads (record { prev_frame = some raw }) rest)

decode_all_payloads :
    (c : DeltaCodec) (frames : List (List ℕ))
    → decode_all c (payloads_from c.prev_frame frames) ≡ ok frames
unfolding decode_all decode payloads_from
decode_all_payloads c [] = refl
decode_all_payloads c (raw ∷ rest) = rw (
  decode_after-encode_after c.prev_frame raw,
  decode_all_payloads (record { prev_frame = some raw }) rest,
)

-- Two codecs with the same reference frame, one sending and one receiving, carry any sequence of
-- frames, of any sizes, without loss: the receiver gets the frames that were sent.
pub decode_all-encode_all :
    (c : DeltaCodec) (frames : List (List ℕ)) → (encode_all c frames >>= decode_all c) ≡ ok frames
decode_all-encode_all c frames = rw (encode_all_payloads c frames) (decode_all_payloads c frames)
