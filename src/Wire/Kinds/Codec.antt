-- ===== src/Wire/Kinds/Codec.antt =====
-- crates/wzp-proto/src/codec_id.rs, the codec identifiers.
use wzp.Common.{
  ℕ, ◌≡◌, refl, ◌<◌, Bool, true, false, Option, none, some, arith, ◌==◌, if◌then◌else◌,
}

-- `enum CodecId`, its discriminants in `to_wire`.
pub data CodecId : Type 0 where
  opus24k opus16k opus6k codec2_3200 codec2_1200 comfort_noise : CodecId
  opus32k opus48k opus64k h264_baseline av1_main h265_main : CodecId

unfoldable bitrate_bps : CodecId → ℕ
bitrate_bps opus24k = 24000
bitrate_bps opus16k = 16000
bitrate_bps opus6k = 6000
bitrate_bps opus32k = 32000
bitrate_bps opus48k = 48000
bitrate_bps opus64k = 64000
bitrate_bps codec2_3200 = 3200
bitrate_bps codec2_1200 = 1200
bitrate_bps comfort_noise = 0
bitrate_bps h264_baseline = 2000000
bitrate_bps h265_main = 2000000
bitrate_bps av1_main = 2000000

unfoldable frame_duration_ms : CodecId → ℕ
frame_duration_ms opus6k = 40
frame_duration_ms codec2_1200 = 40
frame_duration_ms h264_baseline = 33
frame_duration_ms h265_main = 33
frame_duration_ms av1_main = 33
frame_duration_ms _ = 20

unfoldable sample_rate_hz : CodecId → ℕ
sample_rate_hz codec2_3200 = 8000
sample_rate_hz codec2_1200 = 8000
sample_rate_hz _ = 48000

unfoldable pub from_wire : ℕ → Option CodecId
from_wire v =
    if v == 0
    then some opus24k
    else (if v == 1
        then some opus16k
        else (if v == 2
            then some opus6k
            else (if v == 3
                then some codec2_3200
                else (if v == 4
                    then some codec2_1200
                    else (if v == 5 then some comfort_noise else from_wire_high)))))
  where
    from_wire_high : Option CodecId
    from_wire_high =
        if v == 6
        then some opus32k
        else (if v == 7
            then some opus48k
            else (if v == 8
                then some opus64k
                else (if v == 9
                    then some h264_baseline
                    else (if v == 11
                        then some h265_main
                        else (if v == 12 then some av1_main else none)))))

unfoldable pub to_wire : CodecId → ℕ
to_wire opus24k = 0
to_wire opus16k = 1
to_wire opus6k = 2
to_wire codec2_3200 = 3
to_wire codec2_1200 = 4
to_wire comfort_noise = 5
to_wire opus32k = 6
to_wire opus48k = 7
to_wire opus64k = 8
to_wire h264_baseline = 9
to_wire av1_main = 12
to_wire h265_main = 11

unfoldable is_video : CodecId → Bool
is_video h264_baseline = true
is_video h265_main = true
is_video av1_main = true
is_video _ = false

unfoldable is_opus : CodecId → Bool
is_opus opus6k = true
is_opus opus16k = true
is_opus opus24k = true
is_opus opus32k = true
is_opus opus48k = true
is_opus opus64k = true
is_opus _ = false

pub from_wire-to_wire : (c : CodecId) → from_wire (to_wire c) ≡ some c
unfolding from_wire to_wire
from_wire-to_wire opus24k = refl
from_wire-to_wire _ = refl

pub to_wire_of_from_wire : (v : ℕ) (c : CodecId) → from_wire v ≡ some c → to_wire c ≡ v
unfolding from_wire to_wire
to_wire_of_from_wire v opus24k h = ground arith
to_wire_of_from_wire v _ h = ground arith

pub to_wire-lt : (c : CodecId) → to_wire c < 256
unfolding to_wire
to_wire-lt opus24k = omega arith
to_wire-lt _ = omega arith
