-- ===== src/Protocol/Frame/Wire.antt =====
-- The wire form of a frame header, and what the encoder and the decoder of frame.rs make of it.
use mathlib.Core.List.{append_assoc}
use quicview.Prelude.{
  ℕ, zero, suc, ap, ap₂, concat, show, ◌/◌, ◌%◌, ◌^◌, ◌<◌, ◌≤◌, ◌≡◌, refl, ◌⊎◌, List, [], ◌∷◌, ◌++◌,
  arith, length, Result, ok, err, ltb, if◌then◌else◌, IsBytes, inl, inr,
}
use quicview.Protocol.Error.{ProtocolError, invalid_frame, unknown_frame_kind, payload_too_large}
use quicview.Protocol.Buf.{Buf, be_bytes, be_word, word_then}
use quicview.Protocol.Display.{PixelFormat, bgra8, rgba8, rgb8, nv12}
use quicview.Protocol.Frame.{
  FrameHeader, FrameKind, full, delta, cursor, IsHeader, max_payload, frame_header_size, kind_to_u8,
  kind_from_u8, pixel_format_to_u8, pixel_format_from_u8, encode, decode, decode_fields,
}

-- The wire layout: kind, display, sequence, width, height, format, two reserved bytes, length.
abbrev pub wire_bytes : FrameHeader → ℕ → ℕ → List ℕ → List ℕ
wire_bytes h r s rest =
    kind_to_u8 h.kind
    ∷ (be_bytes h.display_id
        ++ (be_bytes h.sequence
            ++ (be_bytes h.resolution.width
                ++ (be_bytes h.resolution.height
                    ++ (pixel_format_to_u8 h.pixel_format
                        ∷ r
                        ∷ s
                        ∷ (be_bytes h.payload_len ++ rest))))))

pub kind_round_trip : (k : FrameKind) → kind_from_u8 (kind_to_u8 k) ≡ ok k
unfolding kind_from_u8 kind_to_u8
kind_round_trip full = refl
kind_round_trip delta = refl
kind_round_trip cursor = refl

pub format_round_trip : (f : PixelFormat) → pixel_format_from_u8 (pixel_format_to_u8 f) ≡ ok f
unfolding pixel_format_from_u8 pixel_format_to_u8
format_round_trip bgra8 = refl
format_round_trip rgba8 = refl
format_round_trip rgb8 = refl
format_round_trip nv12 = refl

pub kind_cases :
    (b : ℕ)
    → ((k : FrameKind) × (kind_from_u8 b ≡ ok k) × (b ≡ kind_to_u8 k))
      ⊎ (kind_from_u8 b ≡ err (unknown_frame_kind b))
unfolding kind_from_u8 kind_to_u8
kind_cases zero = inl (full, refl, refl)
kind_cases (suc zero) = inl (delta, refl, refl)
kind_cases (suc (suc zero)) = inl (cursor, refl, refl)
kind_cases (suc (suc (suc b))) = inr refl

pub format_cases :
    (b : ℕ)
    → ((f : PixelFormat) × (pixel_format_from_u8 b ≡ ok f) × (b ≡ pixel_format_to_u8 f))
      ⊎ ((e : ProtocolError) × (pixel_format_from_u8 b ≡ err e))
unfolding pixel_format_from_u8 pixel_format_to_u8
format_cases zero = inl (bgra8, refl, refl)
format_cases (suc zero) = inl (rgba8, refl, refl)
format_cases (suc (suc zero)) = inl (rgb8, refl, refl)
format_cases (suc (suc (suc zero))) = inl (nv12, refl, refl)
format_cases (suc (suc (suc (suc b)))) = inr (_, refl)

-- The header that decoded fields make up, or the refusal of its payload.
abbrev pub checked : FrameHeader → Result ProtocolError FrameHeader
checked h =
    if ltb max_payload h.payload_len
    then err (payload_too_large h.payload_len max_payload)
    else ok h

module _ (buf : Buf) where
  pub encode_lem : (h : FrameHeader) (dst : List ℕ) → encode buf h dst ≡ dst ++ wire_bytes h 0 0 []
  unfolding encode
  encode_lem h dst = simp (buf.put_u8_lem, buf.put_u16_lem, buf.put_u32_lem, append_assoc)

  pub decode_long :
      (src : List ℕ) → frame_header_size ≤ length src → decode buf src ≡ decode_fields buf src
  unfolding decode
  decode_long src h = ground arith

  -- What `decode` answers to a buffer of less than 24 bytes.
  abbrev too_short : List ℕ → ProtocolError
  too_short src =
      invalid_frame
        (concat ("need " ∷ show frame_header_size ∷ " bytes, got " ∷ show (length src) ∷ []))

  pub decode_short :
      (src : List ℕ) → length src < frame_header_size → decode buf src ≡ (err (too_short src), src)
  unfolding decode
  decode_short src h = ground arith

  pub decode_fields_bad_kind :
      (k : ℕ) (src : List ℕ) (e : ProtocolError)
      → kind_from_u8 k ≡ err e
      → decode_fields buf (k ∷ src) ≡ (err e, src)
  unfolding decode_fields
  decode_fields_bad_kind k src e bad = simp (buf.get_u8_lem, bad)

module _ (buf : Buf) (k f r s : ℕ) (a0 a1 a2 a3 b0 b1 b2 b3 c0 c1 c2 c3 : ℕ)
    (d0 d1 d2 d3 e0 e1 e2 e3 : ℕ) (rest : List ℕ) where
  abbrev after_format : List ℕ
  after_format = r ∷ s ∷ e0 ∷ e1 ∷ e2 ∷ e3 ∷ rest

  abbrev buffer : List ℕ
  buffer =
      k ∷ a0 ∷ a1 ∷ a2 ∷ a3 ∷ b0 ∷ b1 ∷ b2 ∷ b3 ∷ c0 ∷ c1 ∷ c2 ∷ c3 ∷ d0 ∷ d1 ∷ d2 ∷ d3 ∷ f
      ∷ after_format

  pub decode_fields_bad_format :
      (kind : FrameKind) (e : ProtocolError)
      → kind_from_u8 k ≡ ok kind
      → pixel_format_from_u8 f ≡ err e
      → decode_fields buf buffer ≡ (err e, after_format)
  unfolding decode_fields
  decode_fields_bad_format kind e good bad = simp (buf.get_u8_lem, buf.get_u32_lem, good, bad)

  abbrev header_of : FrameKind → PixelFormat → FrameHeader
  header_of kind format = record {
    kind = kind;
    display_id = be_word a0 a1 a2 a3;
    sequence = be_word b0 b1 b2 b3;
    resolution = record { width = be_word c0 c1 c2 c3; height = be_word d0 d1 d2 d3 };
    pixel_format = format;
    payload_len = be_word e0 e1 e2 e3;
  }

  pub wire_bytes-header_of :
      (kind : FrameKind) (format : PixelFormat)
      → k ≡ kind_to_u8 kind
      → f ≡ pixel_format_to_u8 format
      → IsBytes buffer
      → buffer ≡ wire_bytes (header_of kind format) r s rest
  wire_bytes-header_of kind format ek ef bytes = ap₂ ◌∷◌ ek (
      word_then a0 a1 a2 a3 _ _ (omega arith) (
        word_then b0 b1 b2 b3 _ _ (omega arith) (
          word_then c0 c1 c2 c3 _ _ (omega arith) (
            word_then d0 d1 d2 d3 _ _ (omega arith) (
              ap₂ ◌∷◌ ef (
                ap (λ (t : List ℕ). r ∷ s ∷ t)
                  (word_then e0 e1 e2 e3 rest rest (omega arith) refl)))))))

  pub header_of-IsHeader :
      (kind : FrameKind) (format : PixelFormat) → IsBytes buffer → IsHeader (header_of kind format)
  header_of-IsHeader kind format bytes = record {
    id_fits = omega arith;
    sequence_fits = omega arith;
    resolution_fits = omega arith;
    payload_fits = omega arith;
  }

  pub decode_fields_good :
      (kind : FrameKind) (format : PixelFormat)
      → kind_from_u8 k ≡ ok kind
      → pixel_format_from_u8 f ≡ ok format
      → decode_fields buf buffer ≡ (checked (header_of kind format), rest)
  unfolding decode_fields
  decode_fields_good kind format good fine =
      simp (buf.get_u8_lem, buf.get_u16_lem, buf.get_u32_lem, good, fine)

-- The fields come back from their bytes.
pub header_of_bytes :
    (h : FrameHeader)
    → ◌≡◌ {A = FrameHeader}
        (record {
          kind = h.kind;
          display_id =
              be_word
                (h.display_id / 2 ^ 24)
                (h.display_id / 2 ^ 16 % 256)
                (h.display_id / 2 ^ 8 % 256)
                (h.display_id % 256);
          sequence =
              be_word
                (h.sequence / 2 ^ 24)
                (h.sequence / 2 ^ 16 % 256)
                (h.sequence / 2 ^ 8 % 256)
                (h.sequence % 256);
          resolution = record {
            width =
                be_word
                  (h.resolution.width / 2 ^ 24)
                  (h.resolution.width / 2 ^ 16 % 256)
                  (h.resolution.width / 2 ^ 8 % 256)
                  (h.resolution.width % 256);
            height =
                be_word
                  (h.resolution.height / 2 ^ 24)
                  (h.resolution.height / 2 ^ 16 % 256)
                  (h.resolution.height / 2 ^ 8 % 256)
                  (h.resolution.height % 256);
          };
          pixel_format = h.pixel_format;
          payload_len =
              be_word
                (h.payload_len / 2 ^ 24)
                (h.payload_len / 2 ^ 16 % 256)
                (h.payload_len / 2 ^ 8 % 256)
                (h.payload_len % 256);
        })
        h
header_of_bytes h = ground arith
