-- ===== src/Protocol/Frame.antt =====
-- crates/quicview-protocol/src/frame.rs: the 24-byte frame header.
pub mod Wire
pub mod RoundTrip
use quicview.Prelude.{
  ℕ, zero, suc, ◌*◌, ◌^◌, ◌<◌, ◌≤◌, String, concat, show, List, [], ◌∷◌, Result, ok, err, ltb,
  if◌then◌else◌,
}
use quicview.Protocol.Error.{
  ProtocolError, invalid_frame, unknown_frame_kind, payload_too_large, decode_error,
}
use quicview.Protocol.Buf.{Buf, Read, ◌>>=◌, remaining, lift, get}
use quicview.Protocol.Display.{
  DisplayId, Resolution, IsResolution, PixelFormat, bgra8, rgba8, rgb8, nv12,
}

pub data FrameKind : Type 0 where
  full delta cursor : FrameKind

-- `kind as u8`.
unfoldable pub kind_to_u8 : FrameKind → ℕ
kind_to_u8 full = 0
kind_to_u8 delta = 1
kind_to_u8 cursor = 2

unfoldable pub kind_from_u8 : ℕ → Result ProtocolError FrameKind
kind_from_u8 zero = ok full
kind_from_u8 (suc zero) = ok delta
kind_from_u8 (suc (suc zero)) = ok cursor
kind_from_u8 (suc (suc (suc v))) = err (unknown_frame_kind (suc (suc (suc v))))

unfoldable pub pixel_format_to_u8 : PixelFormat → ℕ
pixel_format_to_u8 bgra8 = 0
pixel_format_to_u8 rgba8 = 1
pixel_format_to_u8 rgb8 = 2
pixel_format_to_u8 nv12 = 3

unfoldable pub pixel_format_from_u8 : ℕ → Result ProtocolError PixelFormat
pixel_format_from_u8 zero = ok bgra8
pixel_format_from_u8 (suc zero) = ok rgba8
pixel_format_from_u8 (suc (suc zero)) = ok rgb8
pixel_format_from_u8 (suc (suc (suc zero))) = ok nv12
pixel_format_from_u8 (suc (suc (suc (suc v)))) =
    err (decode_error (concat ("unknown pixel format: " ∷ show (suc (suc (suc (suc v)))) ∷ [])))

pub record FrameHeader : Type 0 where
  pub kind : FrameKind
  pub display_id : DisplayId
  pub sequence : ℕ
  pub resolution : Resolution
  pub pixel_format : PixelFormat
  pub payload_len : ℕ

abbrev pub frame_header_size : ℕ
frame_header_size = 24

abbrev pub max_payload : ℕ
max_payload = 64 * 1024 * 1024

-- The `u32` fields of a header.
pub record IsHeader (h : FrameHeader) : Type 0 where
  pub id_fits : h.display_id < 2 ^ 32
  pub sequence_fits : h.sequence < 2 ^ 32
  pub resolution_fits : IsResolution h.resolution
  pub payload_fits : h.payload_len < 2 ^ 32

module _ (buf : Buf) where
  open buf use {put_u8, put_u16, put_u32, get_u8, get_u16, get_u32}

  unfoldable pub encode : FrameHeader → List ℕ → List ℕ
  unfolding kind_to_u8 pixel_format_to_u8
  encode h dst =
      let dst1 = put_u8 (kind_to_u8 h.kind) dst in
      let dst2 = put_u32 h.display_id dst1 in
      let dst3 = put_u32 h.sequence dst2 in
      let dst4 = put_u32 h.resolution.width dst3 in
      let dst5 = put_u32 h.resolution.height dst4 in
      let dst6 = put_u8 (pixel_format_to_u8 h.pixel_format) dst5 in
      let dst7 = put_u16 0 dst6 in put_u32 h.payload_len dst7

  -- What follows the length check.
  unfoldable pub decode_fields : Read FrameHeader
  unfolding kind_from_u8 pixel_format_from_u8
  decode_fields = do
    kind_byte ← get get_u8
    kind ← lift (kind_from_u8 kind_byte)
    display_id ← get get_u32
    sequence ← get get_u32
    width ← get get_u32
    height ← get get_u32
    format_byte ← get get_u8
    pixel_format ← lift (pixel_format_from_u8 format_byte)
    reserved ← get get_u16
    payload_len ← get get_u32
    lift (
        if ltb max_payload payload_len
        then err (payload_too_large payload_len max_payload)
        else ok (record {
          kind = kind;
          display_id = display_id;
          sequence = sequence;
          resolution = record { width = width; height = height };
          pixel_format = pixel_format;
          payload_len = payload_len;
        }))

  unfoldable pub decode : Read FrameHeader
  unfolding decode_fields
  decode = do
    size ← remaining
    if ltb size frame_header_size
        then lift (
            err (
              invalid_frame
                (concat ("need " ∷ show frame_header_size ∷ " bytes, got " ∷ show size ∷ []))))
        else decode_fields
