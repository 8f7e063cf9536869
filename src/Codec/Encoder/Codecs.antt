-- ===== src/Codec/Encoder/Codecs.antt =====
-- The raw codec and the delta codec, behind the traits of encoder.rs.
use quicview.Prelude.{◌≡◌, refl, ap, ℕ, List, ok, arith, length, Option, none, some}
use quicview.Codec.Encoder.{Encoder, Decoder, IsLossless}
use quicview.Codec.Delta.{DeltaCodec, raw_encode, raw_decode, encode_after, decode_after}
use quicview.Codec.Delta
use quicview.Codec.Delta.Stream.{length-xor_frames, decode_after-encode_after}

abbrev pub raw_encoder : Encoder (Unit {0})
raw_encoder = record { encode = λ u raw. (u, raw_encode raw) }

abbrev pub raw_decoder : Decoder (Unit {0})
raw_decoder = record { decode = λ u payload. (u, raw_decode payload) }

abbrev pub delta_encoder : Encoder DeltaCodec
delta_encoder = record { encode = Delta.encode }

abbrev pub delta_decoder : Decoder DeltaCodec
delta_decoder = record { decode = Delta.decode }

pub raw-IsLossless : IsLossless raw_encoder raw_decoder (λ e d. Unit {0})
unfolding raw_encode raw_decode
raw-IsLossless = record { follows = λ e d raw h. (tt, tt, raw, refl, refl, refl, tt) }

pub length-encode_after :
    (prev : Option (List ℕ)) (raw : List ℕ) → length (encode_after prev raw) ≡ length raw
unfolding encode_after
length-encode_after none raw = refl
length-encode_after (some prev) raw = ground (arith, length-xor_frames raw prev)

-- Delta codecs are in step when they have the same reference frame.
abbrev pub SameReference : DeltaCodec → DeltaCodec → Type 0
SameReference e d = d.prev_frame ≡ e.prev_frame

pub delta-IsLossless : IsLossless delta_encoder delta_decoder SameReference
unfolding Delta.encode Delta.decode
delta-IsLossless = record {
  follows = λ e d raw h.
      let payload = encode_after e.prev_frame raw in
      let back : decode_after d.prev_frame payload ≡ raw =
        rw h (decode_after-encode_after e.prev_frame raw) in
      (
        record e { prev_frame = some raw },
        record d { prev_frame = some raw },
        payload,
        refl,
        ap (λ f. (record d { prev_frame = some f }, ok f)) back,
        length-encode_after e.prev_frame raw,
        refl,
      );
}
