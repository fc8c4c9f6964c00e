-- ===== src/Wire/Tests.antt =====
-- Packets and trunk frames at concrete values.
use wzp.Common.{ℕ, ◌≡◌, refl, List, [], ◌∷◌, ◌++◌, none, some, ok, arith, All}
use wzp.Wire.Buf.{big_endian}
use wzp.Wire.Kinds.{audio}
use wzp.Wire.Kinds.Media
use wzp.Wire.Kinds.Codec
use wzp.Wire.Kinds.Codec.{opus24k}
use wzp.Wire.Header.{MediaHeader, QualityReport, IsHeader, read_header}
use wzp.Wire.Header.Total.{IsByte}
use wzp.Wire.Packet.{MediaPacket, MiniFrameContext, empty_context, to_bytes, from_bytes}
use wzp.Wire.Packet.Full.{IsPacket, from_bytes-to_bytes}
use wzp.Wire.Packet.Stream.{Follows, encode_all, decode_all, decode_all-encode_all}
use wzp.Wire.Trunk.{TrunkFrame, encode, decode}
use wzp.Wire.Trunk.RoundTrip.{decode-encode}

-- The last header before the sequence number wraps.
abbrev first_header : MediaHeader
first_header = record {
  version = 2;
  flags = 0;
  media_type = audio;
  codec_id = opus24k;
  stream_id = 0;
  fec_ratio = 25;
  seq = 0xFFFF_FFFF;
  timestamp = 70000;
  fec_block = 0x0102;
}

abbrev first : MediaPacket
first = record { header = first_header; payload = 1 ∷ 2 ∷ 3 ∷ []; quality_report = none }

abbrev second : MediaPacket
second = record {
  header = record first_header { seq = 0; timestamp = 70020 };
  payload = 4 ∷ 5 ∷ [];
  quality_report = none;
}

abbrev report : QualityReport
report = record { loss_pct = 12; rtt_4ms = 30; jitter_ms = 4; bitrate_cap_kbps = 24 }

-- A packet with the Q flag and its report.
abbrev reported : MediaPacket
reported = record {
  header = record first_header { flags = 0b0100_0000 };
  payload = 9 ∷ [];
  quality_report = some report;
}

abbrev frame : TrunkFrame
frame = record {
  packets =
      record { id_high = 0; id_low = 1; payload = 7 ∷ 8 ∷ [] }
      ∷ record { id_high = 1; id_low = 2; payload = [] }
      ∷ [];
}

first_header-IsHeader : IsHeader first_header
first_header-IsHeader = omega arith

first-IsPacket : IsPacket first
first-IsPacket = record { header_fits = first_header-IsHeader; report_fits = refl }

second-IsPacket : IsPacket second
second-IsPacket = record { header_fits = omega arith; report_fits = refl }

reported-IsPacket : IsPacket reported
reported-IsPacket = record { header_fits = omega arith; report_fits = (refl, omega arith) }

second-Follows : Follows first_header second
second-Follows = record {
  delta = 20;
  delta_short = omega arith;
  header_next = refl;
  no_report = refl;
  short = omega arith;
}

decode_all-encode_all_example :
    decode_all big_endian
      (encode_all big_endian (first ∷ second ∷ []) empty_context 0)
      empty_context
    ≡ ok (first ∷ second ∷ [])
decode_all-encode_all_example =
    decode_all-encode_all big_endian first (second ∷ []) first-IsPacket
      (second-IsPacket, second-Follows, tt)

from_bytes-to_bytes_example : from_bytes big_endian (to_bytes big_endian reported) ≡ ok reported
from_bytes-to_bytes_example = from_bytes-to_bytes big_endian reported reported-IsPacket

-- A header as it comes from the network.
abbrev received : List ℕ
received = 2 ∷ 0 ∷ 0 ∷ 0 ∷ 0 ∷ 25 ∷ 255 ∷ 255 ∷ 255 ∷ 255 ∷ 0 ∷ 1 ∷ 17 ∷ 112 ∷ 1 ∷ 2 ∷ 6 ∷ []

received-bytes : All IsByte received
received-bytes = (
  omega arith,
  (
    omega arith,
    (
      omega arith,
      (
        omega arith,
        (
          omega arith,
          (
            omega arith,
            (
              omega arith,
              (
                omega arith,
                (
                  omega arith,
                  (
                    omega arith,
                    (
                      omega arith,
                      (
                        omega arith,
                        (
                          omega arith,
                          (omega arith, (omega arith, (omega arith, (omega arith, tt)))),
                        ),
                      ),
                    ),
                  ),
                ),
              ),
            ),
          ),
        ),
      ),
    ),
  ),
)

read_header-received : read_header big_endian received ≡ ok (first_header, 6 ∷ [])
unfolding read_header Media.from_wire Codec.from_wire
read_header-received = refl

abbrev after_first : MiniFrameContext
after_first = record { last = some first_header }

decode-encode_example : decode big_endian (encode big_endian frame ++ 9 ∷ []) ≡ ok frame
decode-encode_example =
    decode-encode big_endian frame (9 ∷ []) (omega arith) (omega arith, (omega arith, tt))
