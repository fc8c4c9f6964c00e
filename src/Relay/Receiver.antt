-- ===== src/Relay/Receiver.antt =====
-- crates/wzp-relay/src/room.rs: the simulcast layer that a receiver gets, and which packets of video go
-- to it. Times are in milliseconds.
pub mod Pace
use wzp.Common.{
  ℕ, ◌+◌, ◌-◌, ◌%◌, Bool, true, false, ◌&&◌, ◌||◌, Option, none, some, leb, ltb, ◌==◌,
  if◌then◌else◌,
}
use wzp.Wire.Kinds.Codec.{CodecId, h264_baseline}
use wzp.Wire.Kinds.Codec
use wzp.Wire.Kinds.Media
use wzp.Wire.Header.{MediaHeader}
use wzp.Wire.Packet.{MediaPacket}

abbrev pub high_threshold_kbps : ℕ
high_threshold_kbps = 3000

abbrev pub mid_threshold_kbps : ℕ
mid_threshold_kbps = 750

abbrev pub layer_switch_hysteresis_ms : ℕ
layer_switch_hysteresis_ms = 3000

pub record ReceiverState : Type 0 where
  pub bwe_kbps : ℕ
  pub loss_pct : ℕ
  pub selected_layer : ℕ
  pub candidate_layer : ℕ
  pub candidate_since : ℕ

unfoldable pub new_receiver : ℕ → ReceiverState
new_receiver now = record {
  bwe_kbps = 0;
  loss_pct = 0;
  selected_layer = 0;
  candidate_layer = 0;
  candidate_since = now;
}

unfoldable pub suggest_layer : ℕ → ℕ → ℕ
suggest_layer bwe_kbps loss_pct =
    if ltb high_threshold_kbps bwe_kbps && ltb loss_pct 2
    then 2
    else (if ltb mid_threshold_kbps bwe_kbps then 1 else 0)

-- `update`
unfoldable pub update_receiver : ReceiverState → ℕ → ℕ → ℕ → ReceiverState
update_receiver s bwe_kbps loss_pct now =
    let is_first = s.bwe_kbps == 0 in
    let suggested = suggest_layer bwe_kbps loss_pct in
    let measured = record s { bwe_kbps = bwe_kbps; loss_pct = loss_pct } in
    if suggested == s.selected_layer
    then record measured { candidate_layer = suggested; candidate_since = now }
    else (if is_first
        then record measured {
          selected_layer = suggested;
          candidate_layer = suggested;
          candidate_since = now;
        }
        else (if suggested == s.candidate_layer
            then record measured {
              selected_layer =
                  if leb layer_switch_hysteresis_ms (now - s.candidate_since)
                  then suggested
                  else s.selected_layer;
            }
            else record measured { candidate_layer = suggested; candidate_since = now }))

pub data RouteReason : Type 0 where
  selected h264_single_layer_compat : RouteReason

unfoldable pub is_h264_baseline : CodecId → Bool
is_h264_baseline h264_baseline = true
is_h264_baseline _ = false

unfoldable pub video_route_reason : MediaHeader → ℕ → Option RouteReason
video_route_reason h selected_layer =
    if h.stream_id == selected_layer
    then some selected
    else (if is_h264_baseline h.codec_id && (h.stream_id == 0 || h.stream_id == 1)
        then some h264_single_layer_compat
        else none)
