-- ===== src/Video/H264.antt =====
-- crates/wzp-video/src/framer.rs and depacketizer.rs: H.264 access units in packets. A position in
-- the access unit is the list of the bytes from there on.
pub mod Nals
pub mod Fragments
pub mod RoundTrip
pub mod Bounds
use wzp.Common.{
  ℕ, zero, suc, ◌+◌, ◌-◌, ◌/◌, Bool, true, false, not, ◌&&◌, ◌||◌, List, [], ◌∷◌, ◌++◌, Option,
  none, some, min, bit_and, bit_or, leb, ltb, ◌==◌, if◌then◌else◌, length, take, drop,
}

pub record FramedPacket : Type 0 where
  pub payload : List ℕ
  pub is_frame_end : Bool

pub record H264Framer : Type 0 where
  pub max_payload_size : ℕ

-- The test of the inner loop of `split_nals`, which wants three more bytes.
unfoldable pub at_start : List ℕ → Bool
at_start (a ∷ b ∷ c ∷ d ∷ []) = a == 0 && (b == 0 && c == 1)
at_start (a ∷ b ∷ c ∷ d ∷ e ∷ r) = a == 0 && (b == 0 && (c == 1 || (c == 0 && d == 1)))
at_start _ = false

-- The inner loop: the bytes before the next start code, and the rest.
unfoldable pub scan : List ℕ → List ℕ × List ℕ
unfolding at_start
scan [] = ([], [])
scan (a ∷ r) = let tail = scan r in if at_start (a ∷ r) then ([], a ∷ r) else (a ∷ tail.0, tail.1)

unfoldable pub skip_zeros : List ℕ → List ℕ
skip_zeros [] = []
skip_zeros (a ∷ r) = if a == 0 then skip_zeros r else a ∷ r

-- `if start < end { nals.push(..) }`
unfoldable pub push_nal : List ℕ → List (List ℕ) → List (List ℕ)
push_nal [] nals = nals
push_nal (a ∷ n) nals = (a ∷ n) ∷ nals

-- What the rounds left find, behind a unit; `none` where they ran out.
unfoldable pub push_some : List ℕ → Option (List (List ℕ)) → Option (List (List ℕ))
push_some n none = none
push_some n (some nals) = some (push_nal n nals)

-- The outer loop, with the rounds left: `none` where they run out before the loop has ended.
unfoldable pub split_loop : ℕ → List ℕ → Option (List (List ℕ))
unfolding skip_zeros scan push_some
split_loop zero [] = some []
split_loop zero (b ∷ d) = none
split_loop (suc fuel) d = elim (skip_zeros d) [
  | [] ↦ some []
  | a ∷ r ↦ if a == 1 then push_some (scan r).0 (split_loop fuel (scan r).1) else some []
]

unfoldable pub or_empty : Option (List (List ℕ)) → List (List ℕ)
or_empty none = []
or_empty (some nals) = nals

-- Each round takes a byte at least: there are rounds enough.
unfoldable pub split_nals : List ℕ → List (List ℕ)
split_nals d = or_empty (split_loop (length d) d)

abbrev pub fu_indicator : ℕ → ℕ
fu_indicator header = bit_or (bit_and header 0x60) 28

abbrev pub fu_header : Bool → Bool → ℕ → ℕ
fu_header is_first is_last header =
    bit_or (bit_or (if is_first then 0x80 else 0) (if is_last then 0x40 else 0))
      (bit_and header 0x1F)

-- The loop over the fragments, with the rounds left; `step` is the room for bytes in a packet.
unfoldable pub fragment_loop : ℕ → ℕ → ℕ → ℕ → ℕ → Bool → List ℕ → List FramedPacket
fragment_loop zero step total idx header is_last_nal p = []
fragment_loop (suc fuel) step total idx header is_last_nal [] = []
fragment_loop (suc fuel) step total idx header is_last_nal (b ∷ p) =
    let is_last = idx + 1 == total in
    record {
      payload = fu_indicator header ∷ fu_header (idx == 0) is_last header ∷ take step (b ∷ p);
      is_frame_end = is_last_nal && is_last;
    }
    ∷ fragment_loop fuel step total (idx + 1) header is_last_nal (drop step (b ∷ p))

-- `a.div_ceil(b)`
abbrev pub div_ceil : ℕ → ℕ → ℕ
div_ceil a b = (a + b - 1) / b

-- A nonempty NAL unit; `none` where a packet has no room for a byte beside the two headers: the
-- division by zero panics, and with less room still the loop makes no progress.
unfoldable pub frame_nal : ℕ → Bool → List ℕ → Option (List FramedPacket)
unfolding fragment_loop
frame_nal max is_last_nal [] = some (record { payload = []; is_frame_end = is_last_nal } ∷ [])
frame_nal max is_last_nal (header ∷ p) =
    if leb (length (header ∷ p)) max
    then some (record { payload = header ∷ p; is_frame_end = is_last_nal } ∷ [])
    else (if leb max 2
        then none
        else some (
            fragment_loop (length p) (max - 2) (div_ceil (length p) (max - 2)) 0 header is_last_nal
              p))

abbrev is_empty_list : List (List ℕ) → Bool
is_empty_list [] = true
is_empty_list (x ∷ xs) = false

abbrev pub join :
    Option (List FramedPacket) → Option (List FramedPacket) → Option (List FramedPacket)
join none r = none
join (some p) none = none
join (some p) (some q) = some (p ++ q)

unfoldable pub frame_nals : ℕ → List (List ℕ) → Option (List FramedPacket)
frame_nals max [] = some []
frame_nals max (n ∷ ns) = join (frame_nal max (is_empty_list ns) n) (frame_nals max ns)

unfoldable pub frame : H264Framer → List ℕ → Option (List FramedPacket)
frame f access_unit = frame_nals f.max_payload_size (split_nals access_unit)

pub record H264Depacketizer : Type 0 where
  pub buffer : List ℕ
  pub in_fragment : Bool
  pub frag_header : ℕ

unfoldable pub new_depacketizer : H264Depacketizer
new_depacketizer = record { buffer = []; in_fragment = false; frag_header = 0 }

abbrev pub start_code : List ℕ
start_code = 0 ∷ 0 ∷ 1 ∷ []

unfoldable pub maybe_emit : Bool → H264Depacketizer → Option (List ℕ) × H264Depacketizer
maybe_emit is_frame_end s =
    if is_frame_end && not s.in_fragment
    then (elim s.buffer [ [] ↦ (none, s) | b ∷ r ↦ (some (b ∷ r), record s { buffer = [] }) ])
    else (none, s)

-- The first of the three steps of a fragment: the reconstructed header.
unfoldable pub start_fragment : ℕ → ℕ → H264Depacketizer → H264Depacketizer
start_fragment indicator fu s =
    let h : ℕ = bit_or (bit_and indicator 0xE0) (bit_and fu 0x1F) in
    if not (bit_and fu 0x80 == 0)
    then record s {
      buffer = s.buffer ++ (start_code ++ h ∷ []);
      in_fragment = true;
      frag_header = h;
    }
    else s

unfoldable pub add_fragment : ℕ → List ℕ → H264Depacketizer → H264Depacketizer
add_fragment fu bytes s = record s {
  buffer = if s.in_fragment then s.buffer ++ bytes else s.buffer;
  in_fragment = if not (bit_and fu 0x40 == 0) then false else s.in_fragment;
}

unfoldable pub push : H264Depacketizer → List ℕ → Bool → Option (List ℕ) × H264Depacketizer
unfolding start_fragment add_fragment
push s [] is_frame_end = maybe_emit is_frame_end s
push s (b ∷ []) is_frame_end =
    if bit_and b 0x1F == 28
    then maybe_emit is_frame_end (record s { in_fragment = false })
    else maybe_emit is_frame_end
        (record s { in_fragment = false; buffer = s.buffer ++ (start_code ++ b ∷ []) })
push s (b ∷ fu ∷ r) is_frame_end =
    if bit_and b 0x1F == 28
    then maybe_emit is_frame_end (add_fragment fu r (start_fragment b fu s))
    else maybe_emit is_frame_end
        (record s { in_fragment = false; buffer = s.buffer ++ (start_code ++ b ∷ fu ∷ r) })
