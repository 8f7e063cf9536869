-- ===== src/Protocol/Frame/RoundTrip.antt =====
-- Encoding and decoding frame headers: the round trip, and what `decode` answers on every buffer.
use native.Mathlib.Decide.{dec_lt}
use quicview.Prelude.{
  ℕ, ◌∙◌, ap, ◌<◌, ◌≤◌, ◌≡◌, List, [], ◌∷◌, ◌++◌, arith, length, Result, ok, err, panic, ltb,
  IsBytes, Bool-cases, inl, inr,
}
use quicview.Protocol.Error.{ProtocolError, payload_too_large}
use quicview.Protocol.Buf.{Buf}
use quicview.Protocol.Frame.{
  FrameHeader, IsHeader, max_payload, frame_header_size, kind_to_u8, pixel_format_to_u8, encode,
  decode, decode_fields,
}
use quicview.Protocol.Frame.Wire.{
  wire_bytes, kind_round_trip, format_round_trip, kind_cases, format_cases, checked, encode_lem,
  decode_long, decode_short, decode_fields_bad_kind, decode_fields_bad_format, decode_fields_good,
  wire_bytes-header_of, header_of-IsHeader, header_of_bytes,
}

module _ (buf : Buf) where
  pub decode-wire_bytes :
      (h : FrameHeader) (r s : ℕ) (rest : List ℕ)
      → decode buf (wire_bytes h r s rest) ≡ (checked h, rest)
  decode-wire_bytes h r s rest =
      decode_long buf (wire_bytes h r s rest) (omega arith)
      ∙ decode_fields_good buf (kind_to_u8 h.kind) (pixel_format_to_u8 h.pixel_format) r s _ _ _ _ _
          _ _ _ _ _ _ _ _ _ _ _ _ _ _ _ rest h.kind h.pixel_format (kind_round_trip h.kind)
          (format_round_trip h.pixel_format)
      ∙ ap (λ (h' : FrameHeader). (checked h', rest)) (header_of_bytes h)

  -- A header whose fields are in range and whose payload is within the limit, encoded onto an empty
  -- buffer and read back with any bytes behind it, is decoded to itself, and those bytes are left.
  pub decode-encode :
      (h : FrameHeader) (rest : List ℕ)
      → IsHeader h
      → h.payload_len ≤ max_payload
      → decode buf (encode buf h [] ++ rest) ≡ (ok h, rest)
  decode-encode h rest v fits =
      rw (encode_lem buf h []) (decode-wire_bytes h 0 0 rest ∙ ground arith)

-- What a result of `decode` says of the buffer it came from.
abbrev pub Explains : List ℕ → Result ProtocolError FrameHeader × List ℕ → Type 0
Explains src (ok h, rest) =
    (r : ℕ) × (s : ℕ) × (src ≡ wire_bytes h r s rest) × IsHeader h × (h.payload_len ≤ max_payload)
Explains src (err e, rest) = length rest ≤ length src
Explains src (panic, rest) = ⊥

checked-Explains :
    (h : FrameHeader) (r s : ℕ) (src rest : List ℕ)
    → src ≡ wire_bytes h r s rest
    → IsHeader h
    → Explains src (checked h, rest)
checked-Explains h r s src rest e v = elim (Bool-cases (ltb max_payload h.payload_len)) [
  | inl over ↦ rw over (omega (arith, ap length e))
  | inr fits ↦ rw fits (r, s, e, v, ground arith)
]

module _ (buf : Buf) where
  decode_fields-Explains :
      (src : List ℕ)
      → frame_header_size ≤ length src
      → IsBytes src
      → Explains src (decode_fields buf src)
  decode_fields-Explains
        (k ∷ a0 ∷ a1 ∷ a2 ∷ a3 ∷ b0 ∷ b1 ∷ b2 ∷ b3 ∷ c0 ∷ c1 ∷ c2 ∷ c3 ∷ d0 ∷ d1 ∷ d2 ∷ d3 ∷ f ∷ r
          ∷ s ∷ e0 ∷ e1 ∷ e2 ∷ e3 ∷ rest)
        h bytes =
      elim (kind_cases k) [
        | inr bad ↦ rw (decode_fields_bad_kind buf k _ _ bad) (omega arith)
        | inl (kind, good, ek) ↦ elim (format_cases f) [
          | inr (_, bad) ↦
              rw
                (decode_fields_bad_format buf k f r s a0 a1 a2 a3 b0 b1 b2 b3 c0 c1 c2 c3 d0 d1 d2
                  d3 e0 e1 e2 e3 rest kind _ good bad)
                (omega arith)
          | inl (format, fine, ef) ↦
              rw
                (decode_fields_good buf k f r s a0 a1 a2 a3 b0 b1 b2 b3 c0 c1 c2 c3 d0 d1 d2 d3 e0
                  e1 e2 e3 rest kind format good fine)
                (checked-Explains _ r s _ rest
                  (wire_bytes-header_of buf k f r s a0 a1 a2 a3 b0 b1 b2 b3 c0 c1 c2 c3 d0 d1 d2 d3
                    e0 e1 e2 e3 rest kind format ek ef bytes)
                  (header_of-IsHeader buf k f r s a0 a1 a2 a3 b0 b1 b2 b3 c0 c1 c2 c3 d0 d1 d2 d3 e0
                    e1 e2 e3 rest kind format bytes))
        ]
      ]
  decode_fields-Explains _ h bytes = absurd (omega arith)

  -- On a buffer of bytes, `decode` never panics; an accepted header has its fields in range and its
  -- payload within the limit, and the buffer was that header's wire bytes, with some two reserved
  -- bytes, before what is left; a refusal leaves no more than there was.
  pub decode-Explains : (src : List ℕ) → IsBytes src → Explains src (decode buf src)
  decode-Explains src bytes = elim (dec_lt (length src) frame_header_size) [
    | yes short ↦ rw (decode_short buf src short) (omega arith)
    | no long ↦
        rw (decode_long buf src (omega arith)) (decode_fields-Explains src (omega arith) bytes)
  ]

  -- A header whose payload is over the limit is refused, with its size and the limit as the error,
  -- whatever else it says.
  pub decode_oversized :
      (h : FrameHeader) (rest : List ℕ)
      → max_payload < h.payload_len
      → decode buf (encode buf h [] ++ rest)
        ≡ (err (payload_too_large h.payload_len max_payload), rest)
  decode_oversized h rest over =
      rw (encode_lem buf h []) (decode-wire_bytes buf h 0 0 rest ∙ ground arith)
