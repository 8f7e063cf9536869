-- ===== src/Codec/Encoder.antt =====
-- crates/quicview-codec/src/encoder.rs: the traits of an encoder and of a decoder, and what a pair of
-- them promises the program that sends frames through it.
pub mod Codecs
use quicview.Prelude.{◌≡◌, ℕ, List, Result, ok, length}
use quicview.Codec.Error.{CodecError}

pub record Encoder (E : Type 0) : Type 0 where
  pub encode : E → List ℕ → E × Result CodecError (List ℕ)

pub record Decoder (D : Type 0) : Type 0 where
  pub decode : D → List ℕ → D × Result CodecError (List ℕ)

-- The states of the two in which the decoder follows the encoder: the next frame comes back from a
-- payload that is as long as it, and the two are in step again.
pub record IsLossless {E D : Type 0} (encoder : Encoder E) (decoder : Decoder D)
    (InStep : E → D → Type 0) : Type 0 where
  pub follows :
      (e : E) (d : D) (raw : List ℕ)
      → InStep e d
      → (e1 : E) × (d1 : D) × (payload : List ℕ) × (encoder.encode e raw ≡ (e1, ok payload))
        × (decoder.decode d payload ≡ (d1, ok raw))
        × (length payload ≡ length raw)
        × InStep e1 d1
