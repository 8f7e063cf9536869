-- ===== src/Codec/Delta.antt =====
-- crates/quicview-codec/src/delta.rs and encoder.rs: the XOR codec and the raw codec.
pub mod Stream
pub mod Desync
use quicview.Prelude.{
  ℕ, bit_xor, Option, none, some, List, [], ◌∷◌, Result, ok, ◌>>=◌, length, ◌==◌, if◌then◌else◌,
  not,
}
use quicview.Codec.Error.{CodecError}

-- `RawCodec` has no state.
unfoldable pub raw_encode : List ℕ → Result CodecError (List ℕ)
raw_encode raw = ok raw

unfoldable pub raw_decode : List ℕ → Result CodecError (List ℕ)
raw_decode compressed = ok compressed

pub record DeltaCodec : Type 0 where
  pub prev_frame : Option (List ℕ)

unfoldable pub new : DeltaCodec
new = record { prev_frame = none }

unfoldable pub reset : DeltaCodec → DeltaCodec
reset c = record c { prev_frame = none }

-- `a.iter().zip(b.iter()).map(|(x, y)| x ^ y)`: as long as the shorter of the two.
unfoldable pub xor_frames : List ℕ → List ℕ → List ℕ
xor_frames [] ys = []
xor_frames (x ∷ xs) [] = []
xor_frames (x ∷ xs) (y ∷ ys) = bit_xor x y ∷ xor_frames xs ys

-- The payload for a frame after a frame, and what `encode` keeps.
unfoldable pub encode_after : Option (List ℕ) → List ℕ → List ℕ
unfolding xor_frames
encode_after none raw = raw
encode_after (some prev) raw = if not (length prev == length raw) then raw else xor_frames raw prev

unfoldable pub encode : DeltaCodec → List ℕ → DeltaCodec × Result CodecError (List ℕ)
unfolding encode_after
encode c raw = (record c { prev_frame = some raw }, ok (encode_after c.prev_frame raw))

-- The frame that a payload stands for after a frame.
unfoldable pub decode_after : Option (List ℕ) → List ℕ → List ℕ
unfolding xor_frames
decode_after none compressed = compressed
decode_after (some prev) compressed =
    if not (length prev == length compressed) then compressed else xor_frames compressed prev

unfoldable pub decode : DeltaCodec → List ℕ → DeltaCodec × Result CodecError (List ℕ)
unfolding decode_after
decode c compressed =
    let frame = decode_after c.prev_frame compressed in
    (record c { prev_frame = some frame }, ok frame)

-- A sender's frames one after the other, and a receiver's payloads.
pub encode_all : DeltaCodec → List (List ℕ) → Result CodecError (List (List ℕ))
unfolding encode
encode_all c [] = ok []
encode_all c (raw ∷ rest) = do
  payload ← (encode c raw).1
  payloads ← encode_all (encode c raw).0 rest
  ok (payload ∷ payloads)

pub decode_all : DeltaCodec → List (List ℕ) → Result CodecError (List (List ℕ))
unfolding decode
decode_all c [] = ok []
decode_all c (payload ∷ rest) = do
  frame ← (decode c payload).1
  frames ← decode_all (decode c payload).0 rest
  ok (frame ∷ frames)
