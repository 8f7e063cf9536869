-- ===== src/Tests/Codecs.antt =====
-- The codecs, conversions and the bitrate controller (crates/quicview-codec).
use quicview.Prelude.{
  ℕ, ◌≡◌, refl, List, [], ◌∷◌, some, ok, ◌>>=◌, length, get_elem?, arith, ◌-◌, ◌+◌, ◌*◌, ◌/◌, min,
  max, ◌↔◌,
}
use quicview.Codec.Delta.{DeltaCodec, new, encode, encode_all, decode_all}
use quicview.Codec.Delta.Stream.{decode_all-encode_all}
use quicview.Codec.Delta.Desync.{IsBlank, after_reset, reset_desync}
use quicview.Codec.Convert.{rgba_to_rgb}
use quicview.Codec.Convert.Laws.{rgba_to_rgb_channels}
use quicview.Codec.Bitrate.{BitrateController, record_frame, record_all, measured_bps}
use quicview.Codec.Bitrate
use quicview.Codec.Bitrate.Quality.{IsTuned, record_all-new-IsTuned}
use quicview.Codec.Bitrate.Pace.{AllOver, AllUnder, sustained_overload, sustained_slack}
use quicview.Codec.Bitrate.Window.{Ascending, recent, record_frame-recent}
use quicview.Codec.Bitrate.Steady.{steady, measured_bps-steady}

abbrev frames : List (List ℕ)
frames = (1 ∷ 2 ∷ 3 ∷ []) ∷ (1 ∷ 7 ∷ 3 ∷ []) ∷ (9 ∷ []) ∷ []

second_payload : (encode (encode new (1 ∷ 2 ∷ 3 ∷ [])).0 (1 ∷ 7 ∷ 3 ∷ [])).1 ≡ ok (0 ∷ 5 ∷ 0 ∷ [])
unfolding encode new
second_payload = refl

decode_all-encode_all_example : (encode_all new frames >>= decode_all new) ≡ ok frames
decode_all-encode_all_example = decode_all-encode_all new frames

abbrev holding : DeltaCodec
holding = record { prev_frame = some (4 ∷ 0 ∷ []) }

reset_desync_example :
    (after_reset new holding (1 ∷ 2 ∷ []) ≡ ok (1 ∷ 2 ∷ [])) ↔ IsBlank (4 ∷ 0 ∷ [])
reset_desync_example = reset_desync new holding (4 ∷ 0 ∷ []) (1 ∷ 2 ∷ []) refl refl

abbrev pixels : List ℕ
pixels = 1 ∷ 2 ∷ 3 ∷ 255 ∷ 4 ∷ 5 ∷ 6 ∷ 254 ∷ []

abbrev rgb_pixels : List ℕ
rgb_pixels = 1 ∷ 2 ∷ 3 ∷ 4 ∷ 5 ∷ 6 ∷ []

pixels_converted : rgba_to_rgb pixels ≡ ok rgb_pixels
unfolding rgba_to_rgb
pixels_converted = refl

rgba_to_rgb_channels_example :
    (length rgb_pixels * 4 ≡ length pixels * 3)
    × (get_elem? rgb_pixels (1 * 3 + 2) ≡ get_elem? pixels (1 * 4 + 2))
rgba_to_rgb_channels_example =
    rgba_to_rgb_channels pixels rgb_pixels 1 2 pixels_converted (omega arith)

record_all-new-IsTuned_example :
    IsTuned (record_all (Bitrate.new 1000) ((0, 5000) ∷ (10, 5000) ∷ []))
record_all-new-IsTuned_example = record_all-new-IsTuned 1000 ((0, 5000) ∷ (10, 5000) ∷ [])

-- One frame seen, so that the next ones are measured.
abbrev started : ℕ → BitrateController
started target = record_all (Bitrate.new target) ((0, 1000) ∷ [])

abbrev large : List (ℕ × ℕ)
large = (10, 1000) ∷ (20, 1000) ∷ (30, 1000) ∷ []

large-AllOver : AllOver (started 1000) large
unfolding record_frame record_all measured_bps Bitrate.new Bitrate.adjust_quality Bitrate.push_frame
large-AllOver = (omega arith, (omega arith, (omega arith, tt)))

sustained_overload_example :
    (record_all (started 1000) large).quality ≡ max ((started 1000).quality - 5 * 1) 10
sustained_overload_example =
    sustained_overload 1 (started 1000) large refl (record_all-new-IsTuned 1000 ((0, 1000) ∷ []))
      large-AllOver

abbrev small : List (ℕ × ℕ)
small = (1000, 1) ∷ (1010, 1) ∷ (1020, 1) ∷ (1030, 1) ∷ (1040, 1) ∷ []

small-AllUnder : AllUnder (started 1000000) small
unfolding record_frame record_all measured_bps Bitrate.new Bitrate.adjust_quality Bitrate.push_frame
small-AllUnder = (
  omega arith,
  omega arith,
  (
    omega arith,
    omega arith,
    (omega arith, omega arith, (omega arith, omega arith, (omega arith, omega arith, tt))),
  ),
)

sustained_slack_example :
    (record_all (started 1000000) small).quality ≡ min ((started 1000000).quality + 5 * 1) 100
sustained_slack_example =
    sustained_slack 1 (started 1000000) small refl (record_all-new-IsTuned 1000000 ((0, 1000) ∷ []))
      small-AllUnder

-- One frame of 1000 bytes a second, which is 8000 bits a second, is measured as 12000.
measured_bps-steady_example :
    measured_bps (record_all (Bitrate.new 8000) (steady 1000 1000 5 10))
    ≡ min 10 (2000 / 1000 + 1) * 1000 * 8000 / ((min 10 (2000 / 1000 + 1) - 1) * 1000)
measured_bps-steady_example =
    measured_bps-steady 8000 1000 1000 5 10 (omega arith) (omega arith) (omega arith)

too_high : min 10 (2000 / 1000 + 1) * 1000 * 8000 / ((min 10 (2000 / 1000 + 1) - 1) * 1000) ≡ 12000
too_high = refl

abbrev windowed : BitrateController
windowed = record {
  target_bps = 1000;
  quality = 80;
  window = (0, 5) ∷ (100, 5) ∷ [];
  window_ms = 2000;
  over_budget_count = 0;
  under_budget_count = 0;
}

record_frame-recent_example :
    ((record_frame windowed (2050, 9)).window
      ≡ recent (2050 - 2000) ((0, 5) ∷ (100, 5) ∷ (2050, 9) ∷ []))
    × Ascending (record_frame windowed (2050, 9)).window
record_frame-recent_example =
    record_frame-recent windowed 2050 9 ((omega arith, tt), (tt, tt))
      (omega arith, (omega arith, tt))
