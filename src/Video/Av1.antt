-- ===== src/Video/Av1.antt =====
-- crates/wzp-video/src/av1_obu.rs: the units of an AV1 stream. An offset into the data is the list of
-- the bytes from there on.
pub mod Leb128
pub mod Units
use wzp.Common.{
  ℕ, zero, suc, ◌+◌, ◌-◌, ◌*◌, ◌/◌, ◌%◌, ◌^◌, Bool, true, false, not, ◌&&◌, ◌||◌, List, [], ◌∷◌,
  ◌++◌, Option, none, some, bit_and, bit_or, leb, ltb, ◌==◌, if◌then◌else◌, length, take, drop,
  get_or, Outcome, ok, absent, panicked, ◌>>=◌,
}
use wzp.Common.Words.{u64_mod}

pub record ObuHeader : Type 0 where
  pub obu_type : ℕ
  pub has_size_field : Bool
  pub extension_flag : Bool

unfoldable pub from_byte : ℕ → ObuHeader
from_byte byte = record {
  obu_type = bit_and (byte / 8) 0x0F;
  has_size_field = not (bit_and (byte / 2) 1 == 0);
  extension_flag = not (bit_and byte 1 == 0);
}

unfoldable pub to_byte : ObuHeader → ℕ
to_byte h =
    bit_or (bit_or (bit_and h.obu_type 0x0F * 8) (if h.has_size_field then 2 else 0))
      (if h.extension_flag then 1 else 0)

-- The loop of `read_leb128`, with the number of bytes that it has consumed.
unfoldable pub read_loop : List ℕ → ℕ → ℕ → ℕ → Option (ℕ × ℕ)
read_loop [] value shift n = none
read_loop (byte ∷ r) value shift n =
    let value' = bit_or value (bit_and byte 0x7F * 2 ^ shift % u64_mod) in
    let more = read_loop r value' (shift + 7) (n + 1) in
    if bit_and byte 0x80 == 0
    then some (value', n + 1)
    else (if leb 64 (shift + 7) then none else more)

unfoldable pub read_leb128 : List ℕ → Option (ℕ × ℕ)
unfolding read_loop
read_leb128 d = read_loop d 0 0 0

-- The loop of `write_leb128`, with the rounds left: a u64 takes ten at most.
unfoldable pub write_loop : ℕ → ℕ → List ℕ
write_loop zero v = []
write_loop (suc fuel) v =
    if v / 128 == 0
    then bit_and v 0x7F ∷ []
    else bit_or (bit_and v 0x7F) 0x80 ∷ write_loop fuel (v / 128)

unfoldable pub write_leb128 : ℕ → List ℕ
write_leb128 v = write_loop 10 v

-- An OBU of `split_obus`, its header and its payload.
pub record Obu : Type 0 where
  pub header : ObuHeader
  pub payload : List ℕ

-- A round of the loop of `split_obus`: it breaks off, it panics, or it takes a unit.
pub data Round : Type 0 where
  broken overflowed : Round
  got : Obu → List ℕ → Round

-- Behind the size field, at an offset. Where `i + payload_len` wraps, the sum is below the offset,
-- the test lets it pass, and the slice panics.
unfoldable pub take_payload : ℕ → ObuHeader → List ℕ → Option (ℕ × ℕ) → Round
take_payload i h d none = broken
take_payload i h d (some (size, consumed)) =
    let rest = drop consumed d in
    if leb u64_mod (i + consumed + size)
    then overflowed
    else (if ltb (length rest) size
        then broken
        else got (record { header = h; payload = take size rest }) (drop size rest))

unfoldable pub after_header : ℕ → ObuHeader → List ℕ → Round
unfolding take_payload read_leb128
after_header i h d = if h.has_size_field then take_payload i h d (read_leb128 d) else broken

unfoldable pub next_obu : ℕ → List ℕ → Round
unfolding after_header
next_obu i [] = broken
next_obu i (byte ∷ d) =
    if (from_byte byte).extension_flag
    then (elim d [ [] ↦ broken | ext ∷ r ↦ after_header (i + 2) (from_byte byte) r ])
    else after_header (i + 1) (from_byte byte) d

abbrev pub cons_ok : Obu → Outcome (List Obu) → Outcome (List Obu)
cons_ok u (ok us) = ok (u ∷ us)
cons_ok u absent = absent
cons_ok u panicked = panicked

-- Each round takes a byte at least; the offset is what is gone of the whole length.
unfoldable pub split_loop : ℕ → ℕ → List ℕ → Outcome (List Obu)
split_loop zero total d = ok []
split_loop (suc fuel) total d = elim (next_obu (total - length d) d) [
  | broken ↦ ok []
  | overflowed ↦ panicked
  | got u r ↦ cons_ok u (split_loop fuel total r)
]

unfoldable pub split_obus : List ℕ → Outcome (List Obu)
split_obus d = split_loop (length d) (length d) d

abbrev pub obu_frame_header : ℕ
obu_frame_header = 3

abbrev pub obu_frame : ℕ
obu_frame = 6

unfoldable pub read_bit : List ℕ → ℕ → Bool
read_bit d bit_offset =
    let byte_idx : ℕ = bit_offset / 8 in
    let bit_idx : ℕ = 7 - bit_offset % 8 in
    if leb (length d) byte_idx
    then false
    else not (bit_and (get_or d byte_idx 0 / 2 ^ bit_idx) 1 == 0)

-- The loop of `read_bits`, with the bits left.
unfoldable pub read_bits_loop : ℕ → List ℕ → ℕ → ℕ → ℕ
read_bits_loop zero d offset value = value
read_bits_loop (suc n) d offset value =
    read_bits_loop n d (offset + 1) (bit_or (value * 2 % 256) (if read_bit d offset then 1 else 0))

unfoldable pub read_bits : List ℕ → ℕ → ℕ → ℕ
read_bits d bit_offset n = read_bits_loop n d bit_offset 0

abbrev pub is_frame_unit : Obu → Bool
is_frame_unit u =
    (u.header.obu_type == obu_frame_header || u.header.obu_type == obu_frame)
    && not (length u.payload == 0)

unfoldable pub first_is_key : List Obu → Bool
first_is_key [] = false
first_is_key (u ∷ us) =
    if is_frame_unit u && not (read_bit u.payload 0)
    then read_bits u.payload 1 2 == 0
    else first_is_key us

unfoldable pub is_keyframe_obu : List ℕ → Outcome Bool
is_keyframe_obu d = do us ← split_obus d; ok (first_is_key us)

-- `Av1Depacketizer`
pub record Av1Depacketizer : Type 0 where
  pub buffer : List ℕ

unfoldable pub new_depacketizer : Av1Depacketizer
new_depacketizer = record { buffer = [] }

unfoldable pub emit : Bool → List ℕ → Option (List ℕ) × Av1Depacketizer
emit is_frame_end [] = (none, record { buffer = [] })
emit is_frame_end (b ∷ r) =
    if is_frame_end
    then (some (b ∷ r), record { buffer = [] })
    else (none, record { buffer = b ∷ r })

unfoldable pub push : Av1Depacketizer → List ℕ → Bool → Option (List ℕ) × Av1Depacketizer
unfolding emit
push s payload is_frame_end = emit is_frame_end (s.buffer ++ payload)

unfoldable pub reset : Av1Depacketizer → Av1Depacketizer
reset s = record { buffer = [] }

-- `Av1ObuFramer`
pub record Av1ObuFramer : Type 0 where
  pub max_payload : ℕ

-- A unit as the framer writes it: no extension byte.
unfoldable pub encode_obu : Obu → List ℕ
encode_obu u = to_byte u.header ∷ (write_leb128 (length u.payload) ++ u.payload)

abbrev pub push_packet : List ℕ → List (List ℕ) → List (List ℕ)
push_packet [] ps = ps
push_packet (b ∷ c) ps = (b ∷ c) ∷ ps

-- The loop of `frame`: the packets from the units left, with the packet that is being filled.
unfoldable pub fill : ℕ → List ℕ → List Obu → List (List ℕ)
unfolding encode_obu
fill max current [] = push_packet current []
fill max current (u ∷ us) =
    let full = not (length current == 0) && ltb max (length current + length (encode_obu u)) in
    if full then current ∷ fill max (encode_obu u) us else fill max (current ++ encode_obu u) us

unfoldable pub frame : Av1ObuFramer → List ℕ → Outcome (List (List ℕ))
frame f access_unit = do us ← split_obus access_unit; ok (fill f.max_payload [] us)
