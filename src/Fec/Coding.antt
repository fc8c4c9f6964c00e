-- ===== src/Fec/Coding.antt =====
-- crates/wzp-fec/src/encoder.rs and decoder.rs: the frames of a block as symbols of one size, each with
-- its length in front, and what the decoder makes of the symbols that arrive. The `raptorq` crate is a
-- parameter: `decode` takes the source block number, the length of the block, the size of a symbol
-- and the packets. An offset into the data is the list of the bytes from there on.
pub mod RoundTrip
use wzp.Common.{
  ℕ, zero, suc, ◌+◌, ◌-◌, ◌*◌, ◌/◌, ◌%◌, min, Bool, true, false, ◌&&◌, ◌||◌, not, List, [], ◌∷◌,
  ◌++◌, Option, none, some, arith, bit_and, leb, ltb, ◌==◌, if◌then◌else◌, length, take, drop,
  replicate, Outcome, ok, absent, panicked,
}
use wzp.Common.Words.{u16_mod, add16, sub16}

abbrev pub len_prefix : ℕ
len_prefix = 2

-- `(payload_len as u16).to_le_bytes()`
abbrev pub le_bytes : ℕ → List ℕ
le_bytes n = n % u16_mod % 256 ∷ n % u16_mod / 256 ∷ []

-- The encoder

pub record RaptorQFecEncoder : Type 0 where
  pub block_id : ℕ
  pub frames_per_block : ℕ
  pub source_symbols : List (List ℕ)
  pub symbol_size : ℕ
  pub has_keyframe : Bool

unfoldable pub new_encoder : ℕ → ℕ → RaptorQFecEncoder
new_encoder frames_per_block symbol_size = record {
  block_id = 0;
  frames_per_block = frames_per_block;
  source_symbols = [];
  symbol_size = symbol_size;
  has_keyframe = false;
}

-- The part of the block data that belongs to one symbol, zeros included.
unfoldable pub symbol_data : ℕ → List ℕ → List ℕ
symbol_data ss sym =
    let payload_len : ℕ = min (length sym) (ss - len_prefix) in
    le_bytes payload_len ++ (take payload_len sym ++ replicate (ss - len_prefix - payload_len) 0)

unfoldable pub all_data : ℕ → List (List ℕ) → List ℕ
all_data ss [] = []
all_data ss (sym ∷ syms) = symbol_data ss sym ++ all_data ss syms

-- A symbol has room for its length at least, or the slices panic.
unfoldable pub build_block_data : ℕ → List (List ℕ) → Outcome (List ℕ)
unfolding all_data
build_block_data ss [] = ok []
build_block_data ss (sym ∷ syms) =
    if ltb ss len_prefix then panicked else ok (all_data ss (sym ∷ syms))

unfoldable pub add_last : List (List ℕ) → List ℕ → List (List ℕ)
add_last [] x = x ∷ []
add_last (s ∷ ss) x = s ∷ add_last ss x

-- `none` stands for the error that the block is full.
unfoldable pub add_source_symbol : RaptorQFecEncoder → List ℕ → Option RaptorQFecEncoder
add_source_symbol s bytes =
    if leb s.frames_per_block (length s.source_symbols)
    then none
    else some (record s { source_symbols = add_last s.source_symbols bytes })

abbrev pub mark_keyframe : Bool → Option RaptorQFecEncoder → Option RaptorQFecEncoder
mark_keyframe is_keyframe none = none
mark_keyframe is_keyframe (some s) =
    some (record s { has_keyframe = is_keyframe || s.has_keyframe })

unfoldable pub add_source_symbol_with_keyframe :
    RaptorQFecEncoder → List ℕ → Bool → Option RaptorQFecEncoder
add_source_symbol_with_keyframe s bytes is_keyframe =
    mark_keyframe is_keyframe (add_source_symbol s bytes)

unfoldable pub finalize_block : RaptorQFecEncoder → ℕ × RaptorQFecEncoder
finalize_block s = (
  s.block_id,
  record s { block_id = add16 s.block_id 1; source_symbols = []; has_keyframe = false },
)

-- The decoder

-- What `EncodingPacket::new` is given, with the two parts of its `PayloadId`.
pub record EncodingPacket : Type 0 where
  pub block_number : ℕ
  pub symbol_id : ℕ
  pub bytes : List ℕ

pub record BlockState : Type 0 where
  pub num_source_symbols : Option ℕ
  pub packets : List EncodingPacket
  pub symbol_size : ℕ
  pub decoded : Bool
  pub result : Option (List (List ℕ))
  pub decoded_at : Option ℕ

pub record RaptorQFecDecoder : Type 0 where
  pub blocks : ℕ → Option BlockState
  pub symbol_size : ℕ
  pub frames_per_block : ℕ

unfoldable pub new_decoder : ℕ → ℕ → RaptorQFecDecoder
new_decoder frames_per_block symbol_size = record {
  blocks = λ id. none;
  symbol_size = symbol_size;
  frames_per_block = frames_per_block;
}

abbrev pub block_stale_secs : ℕ
block_stale_secs = 2

abbrev pub fresh_block : RaptorQFecDecoder → BlockState
fresh_block s = record {
  num_source_symbols = some s.frames_per_block;
  packets = [];
  symbol_size = s.symbol_size;
  decoded = false;
  result = none;
  decoded_at = none;
}

abbrev pub or_fresh : RaptorQFecDecoder → Option BlockState → BlockState
or_fresh s none = fresh_block s
or_fresh s (some b) = b

abbrev pub put_block : RaptorQFecDecoder → ℕ → BlockState → RaptorQFecDecoder
put_block s id b = record s { blocks = λ i. if i == id then some b else s.blocks i }

-- A decoded block takes symbols again once it is stale; `none` where the symbol is skipped.
unfoldable pub reopen : ℕ → BlockState → Option BlockState
reopen now b =
    if b.decoded
    then (elim b.decoded_at [
      | none ↦ none
      | some at ↦
          (if leb block_stale_secs ((now - at) / 1000000000)
            then some (record b { decoded = false; result = none; decoded_at = none; packets = [] })
            else none)
    ])
    else some b

unfoldable pub pad : ℕ → List ℕ → List ℕ
pad ss bytes = let len : ℕ = min (length bytes) ss in take len bytes ++ replicate (ss - len) 0

unfoldable pub append_packet : List EncodingPacket → EncodingPacket → List EncodingPacket
append_packet [] p = p ∷ []
append_packet (q ∷ qs) p = q ∷ append_packet qs p

unfoldable pub add_symbol : RaptorQFecDecoder → ℕ → ℕ → List ℕ → ℕ → RaptorQFecDecoder
add_symbol s id symbol_index bytes now =
    let b = or_fresh s (s.blocks id) in
    elim (reopen now b) [
      | none ↦ put_block s id b
      | some b₁ ↦ put_block s id (record b₁ {
        packets = append_packet b₁.packets (record {
          block_number = bit_and id 0xFF;
          symbol_id = symbol_index;
          bytes = pad s.symbol_size bytes;
        });
      })
    ]

-- A frame of the decoded data, at an offset.
unfoldable pub frame_of : List ℕ → List ℕ
frame_of [] = []
frame_of (a ∷ []) = []
frame_of (a ∷ b ∷ r) = take (min (a + 256 * b) (length r)) r

unfoldable pub split_frames : ℕ → ℕ → List ℕ → List (List ℕ)
unfolding frame_of
split_frames zero ss d = []
split_frames (suc n) ss d = frame_of d ∷ split_frames n ss (drop ss d)

abbrev pub or_else : Option ℕ → ℕ → ℕ
or_else none n = n
or_else (some m) n = m

module _ (decode : ℕ → ℕ → ℕ → List EncodingPacket → Option (List ℕ)) where
  -- `try_decode` of a block that is there.
  unfoldable pub decode_block :
      RaptorQFecDecoder → ℕ → BlockState → ℕ → Option (List (List ℕ)) × RaptorQFecDecoder
  unfolding split_frames
  decode_block s id b now =
      let num_source : ℕ = or_else b.num_source_symbols s.frames_per_block in
      elim (decode (bit_and id 0xFF) (num_source * b.symbol_size) b.symbol_size b.packets) [
        | none ↦ (none, s)
        | some d ↦
            let frames = split_frames num_source b.symbol_size d in
            (
              some frames,
              put_block s id
                  (record b { decoded = true; decoded_at = some now; result = some frames }),
            )
      ]

  unfoldable pub try_decode : RaptorQFecDecoder → ℕ → ℕ → Option (List (List ℕ)) × RaptorQFecDecoder
  unfolding decode_block
  try_decode s id now = elim (s.blocks id) [
    | none ↦ (none, s)
    | some b ↦ (elim b.result [ some r ↦ (some r, s) | none ↦ decode_block s id b now ])
  ]

abbrev pub keep_block : ℕ → ℕ → Bool
keep_block block_id id =
    let distance : ℕ = sub16 block_id id in (distance == 0) || ltb 32768 distance

unfoldable pub expire_before : RaptorQFecDecoder → ℕ → RaptorQFecDecoder
expire_before s block_id = record s {
  blocks = λ id. if keep_block block_id id then s.blocks id else none;
}
