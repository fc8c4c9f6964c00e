-- ===== src/Quality/Tiers.antt =====
-- crates/wzp-proto/src/quality.rs and codec_id.rs: the quality tiers, their profiles, and the tier of a
-- report. The loss is a byte, 255 for all packets: a threshold in percent is compared in 255ths,
-- where the floating-point comparison cannot differ, since no byte comes near a threshold. A FEC
-- ratio is in tenths, and the video fields, which these profiles leave empty, are left out.
use wzp.Common.{ℕ, ◌*◌, Bool, true, false, ◌||◌, Option, none, some, leb, ltb, if◌then◌else◌}
use wzp.Wire.Kinds.Codec.{CodecId, opus24k, opus6k, codec2_1200, opus32k, opus48k, opus64k}
use wzp.Wire.Header.{QualityReport, rtt_ms}

pub data Tier : Type 0 where
  catastrophic degraded good studio32k studio48k studio64k : Tier

-- The discriminants, which the derived order compares.
unfoldable pub rank : Tier → ℕ
rank catastrophic = 0
rank degraded = 1
rank good = 2
rank studio32k = 3
rank studio48k = 4
rank studio64k = 5

pub record QualityProfile : Type 0 where
  pub codec : CodecId
  pub fec_ratio_tenths : ℕ
  pub frame_duration_ms : ℕ
  pub frames_per_block : ℕ

unfoldable pub profile : Tier → QualityProfile
profile studio64k = record {
  codec = opus64k;
  fec_ratio_tenths = 1;
  frame_duration_ms = 20;
  frames_per_block = 5;
}
profile studio48k = record {
  codec = opus48k;
  fec_ratio_tenths = 1;
  frame_duration_ms = 20;
  frames_per_block = 5;
}
profile studio32k = record {
  codec = opus32k;
  fec_ratio_tenths = 1;
  frame_duration_ms = 20;
  frames_per_block = 5;
}
profile good = record {
  codec = opus24k;
  fec_ratio_tenths = 2;
  frame_duration_ms = 20;
  frames_per_block = 5;
}
profile degraded = record {
  codec = opus6k;
  fec_ratio_tenths = 5;
  frame_duration_ms = 40;
  frames_per_block = 10;
}
profile catastrophic = record {
  codec = codec2_1200;
  fec_ratio_tenths = 10;
  frame_duration_ms = 40;
  frames_per_block = 8;
}

pub data NetworkContext : Type 0 where
  wifi cellular_lte cellular5g cellular3g unknown : NetworkContext

unfoldable pub is_cellular : NetworkContext → Bool
is_cellular cellular_lte = true
is_cellular cellular5g = true
is_cellular cellular3g = true
is_cellular wifi = false
is_cellular unknown = false

-- `loss >= percent` and `loss > percent` of `loss_percent()`
abbrev loss_from : ℕ → QualityReport → Bool
loss_from percent r = leb (percent * 255) (r.loss_pct * 100)

abbrev loss_above : ℕ → QualityReport → Bool
loss_above percent r = ltb (percent * 255) (r.loss_pct * 100)

unfoldable pub classify_with_context : QualityReport → NetworkContext → Tier
unfolding rtt_ms is_cellular
classify_with_context r context =
    if is_cellular context
    then (if loss_above 25 r || ltb 500 (rtt_ms r)
        then catastrophic
        else (if loss_above 8 r || ltb 300 (rtt_ms r) then degraded else good))
    else (if loss_from 15 r || leb 200 (rtt_ms r)
        then catastrophic
        else (if loss_from 5 r || leb 100 (rtt_ms r)
            then degraded
            else (if loss_from 2 r || leb 80 (rtt_ms r)
                then good
                else (if loss_from 1 r || leb 50 (rtt_ms r)
                    then studio32k
                    else (if leb 30 (rtt_ms r) then studio48k else studio64k)))))

unfoldable pub classify : QualityReport → Tier
classify r = classify_with_context r unknown

unfoldable pub downgrade : Tier → Option Tier
downgrade studio64k = some studio48k
downgrade studio48k = some studio32k
downgrade studio32k = some good
downgrade good = some degraded
downgrade degraded = some catastrophic
downgrade catastrophic = none

unfoldable pub upgrade_one_step : Tier → Option Tier
upgrade_one_step catastrophic = some degraded
upgrade_one_step degraded = some good
upgrade_one_step good = some studio32k
upgrade_one_step studio32k = some studio48k
upgrade_one_step studio48k = some studio64k
upgrade_one_step studio64k = none

unfoldable pub is_studio : Tier → Bool
is_studio studio64k = true
is_studio studio48k = true
is_studio studio32k = true
is_studio good = false
is_studio degraded = false
is_studio catastrophic = false
