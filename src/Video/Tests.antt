-- ===== src/Video/Tests.antt =====
-- The framing of video and the requests for lost packets at concrete values.
use wzp.Common.{
  ℕ, ◌-◌, ◌<◌, ◌≡◌, refl, true, false, List, [], ◌∷◌, some, none, arith, All, length, ok,
}
use wzp.Common.SortedMaps.{has, lookup, insert, remove, or_insert, mem}
use wzp.Video.H264.{FramedPacket, H264Framer, frame, new_depacketizer, split_loop, split_nals}
use wzp.Video.H264.Nals.{annex_b, split_loop_enough}
use wzp.Video.H264.Fragments.{feed}
use wzp.Video.H264.RoundTrip.{feed-frame}
use wzp.Video.Av1
use wzp.Video.Av1.{ObuHeader, Obu, Av1ObuFramer, read_leb128, write_leb128, split_obus, to_byte}
use wzp.Video.Av1.Units.{header, encode_all, push_all, Fits, frame_lem}
use wzp.Video.Nack.{
  NackReceiver, new_receiver, on_packet, tick, saturating_mul, note_missing, CachedPacket,
  find_packet, advance_window, due, act, send_nacks, mark_nacked, set_rtt,
}
use wzp.Video.Nack.Ticks.{nacked}
use wzp.Video.Nack.Gaps.{is_gap}
use wzp.Video.Nack.Trace.{packet, timer, estimate, run, came, run_gaps, run_backoff}

-- A parameter set and a slice that takes two fragments.
abbrev framer : H264Framer
framer = record { max_payload_size = 4 }

feed-frame_example :
    (ps : List FramedPacket) × (frame framer
        (annex_b ((0x67 ∷ 66 ∷ 1 ∷ []) ∷ (0x65 ∷ 7 ∷ 8 ∷ 9 ∷ 10 ∷ []) ∷ []))
      ≡ some ps)
    × ((feed new_depacketizer ps).0
        ≡ annex_b ((0x67 ∷ 66 ∷ 1 ∷ []) ∷ (0x65 ∷ 7 ∷ 8 ∷ 9 ∷ 10 ∷ []) ∷ []) ∷ [])
feed-frame_example =
    feed-frame framer (0x67 ∷ 66 ∷ 1 ∷ []) ((0x65 ∷ 7 ∷ 8 ∷ 9 ∷ 10 ∷ []) ∷ []) (omega arith)
      ((refl, refl), ((refl, refl), tt))

split_loop_enough_example :
    split_loop 9 (0 ∷ 0 ∷ 1 ∷ 0x65 ∷ 7 ∷ []) ≡ some (split_nals (0 ∷ 0 ∷ 1 ∷ 0x65 ∷ 7 ∷ []))
split_loop_enough_example = split_loop_enough 9 (0 ∷ 0 ∷ 1 ∷ 0x65 ∷ 7 ∷ []) (omega arith)

abbrev unit : ℕ → List ℕ → Obu
unit t p = record { header = header t true false; payload = p }

abbrev units : List Obu
units = unit 1 (1 ∷ 2 ∷ []) ∷ unit 6 (3 ∷ 4 ∷ 5 ∷ []) ∷ []

length-units : length (encode_all units) ≡ 9
unfolding Av1.encode_obu write_leb128 Av1.write_loop
length-units = refl

-- The same units as another encoder writes them, the first size in two bytes.
abbrev padded : List ℕ
padded = 0x0A ∷ 0x82 ∷ 0x00 ∷ 1 ∷ 2 ∷ 0x32 ∷ 3 ∷ 3 ∷ 4 ∷ 5 ∷ []

padded-units : split_obus padded ≡ ok units
unfolding split_obus Av1.split_loop Av1.next_obu Av1.after_header Av1.take_payload read_leb128
    Av1.read_loop Av1.from_byte
padded-units = refl

frame_lem_example :
    (ps : List (List ℕ)) × (out : List ℕ) × (Av1.frame (record { max_payload = 4 }) padded ≡ ok ps)
    × All (Fits 4) ps
    × (push_all Av1.new_depacketizer ps ≡ out ∷ [])
    × (split_obus out ≡ ok units)
frame_lem_example =
    frame_lem (record { max_payload = 4 }) padded (unit 1 (1 ∷ 2 ∷ []))
      (unit 6 (3 ∷ 4 ∷ 5 ∷ []) ∷ []) padded-units
      ((omega arith, refl, refl), ((omega arith, refl, refl), tt)) (omega (arith, length-units))

-- Packet 1 is lost.
abbrev receiver : NackReceiver
receiver = run (new_receiver 33 20 0) (packet 0 100 ∷ packet 2 100 ∷ [])

run_gaps_example :
    ((k : ℕ)
      → has k (run (new_receiver 33 20 0) (packet 0 100 ∷ packet 2 100 ∷ timer 150 ∷ [])).missing
        ≡ is_gap k (came [] (packet 0 100 ∷ packet 2 100 ∷ timer 150 ∷ [])))
    × ((k now : ℕ)
        → nacked k
            (tick (run (new_receiver 33 20 0) (packet 0 100 ∷ packet 2 100 ∷ timer 150 ∷ [])) now).0
          ≡ true
        → is_gap k (came [] (packet 0 100 ∷ packet 2 100 ∷ timer 150 ∷ [])) ≡ true)
run_gaps_example =
    run_gaps 33 20 0 (packet 0 100 ∷ packet 2 100 ∷ timer 150 ∷ [])
      (omega arith, (omega arith, (tt, tt)))

one_nacked : nacked 1 (tick receiver 150).0 ≡ true
unfolding advance_window on_packet note_missing or_insert insert lookup remove new_receiver tick act
    send_nacks due nacked mem
one_nacked = refl

later :
    180 - 150 < saturating_mul (run (tick receiver 150).1 (packet 3 160 ∷ estimate 25 ∷ [])).rtt 2
unfolding advance_window on_packet note_missing or_insert insert lookup remove new_receiver tick act
    send_nacks due mark_nacked set_rtt
later = omega arith

run_backoff_example :
    nacked 1 (tick (run (tick receiver 150).1 (packet 3 160 ∷ estimate 25 ∷ [])) 180).0 ≡ false
run_backoff_example =
    run_backoff receiver 1 150 180 (packet 3 160 ∷ estimate 25 ∷ []) one_nacked
      ((λ e. ground (arith, e)), (tt, tt)) later

nothing_sent : (n : ℕ) → find_packet n [] ≡ none
unfolding find_packet
nothing_sent n = refl

abbrev cached : ℕ → CachedPacket
cached n = record { seq = n; bytes = n ∷ []; timestamp_ms = 0 }
