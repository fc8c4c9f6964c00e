-- ===== src/Fec/Tests.antt =====
-- The books of the blocks and the interleaver at concrete values.
use wzp.Common.{
  ℕ, Option, some, none, refl, ap, sym, inl, inr, ◌≡◌, Bool, true, false, List, [], ◌∷◌, arith,
}
use wzp.Fec.DecoderBlocks
use wzp.Fec.DecoderBlocks.{
  DecoderBlockManager, Agrees, touches, completes, expires_before, prunes, expire_before,
  is_block_complete, expired, run_new-Agrees, expire_before_half, touch, mark_complete,
}
use wzp.Fec.Coding.{EncodingPacket, all_data, symbol_data, new_decoder, try_decode}
use wzp.Fec.Coding.RoundTrip.{IsSound, add_all, try_decode-add_all}
use wzp.Fec.Interleave.{Symbol, Block}

-- Block 65535 was received, then the identifiers wrapped.
abbrev decoder : DecoderBlockManager
decoder = mark_complete (touch DecoderBlocks.new_manager 4) 65535

abbrev symbol : ℕ → ℕ → Bool → Symbol
symbol b i r = record { block_id = b; index = i; is_repair = r; bytes = b ∷ i ∷ [] }

abbrev blocks : List Block
blocks = (symbol 0 0 false ∷ symbol 0 1 true ∷ []) ∷ (symbol 1 0 false ∷ []) ∷ []

abbrev repair : Symbol → Bool
repair s = s.is_repair

-- A code of one source symbol, whose packets all carry the block.
abbrev repeated : ℕ → ℕ → ℕ → List EncodingPacket → Option (List ℕ)
repeated sbn n ss [] = none
repeated sbn n ss (q ∷ qs) = some q.bytes

abbrev IsRepeat : ℕ → ℕ → List ℕ → EncodingPacket → Type 0
IsRepeat sbn ss bytes q = q.bytes ≡ bytes

repeated-IsSound : IsSound repeated IsRepeat
repeated-IsSound sbn ss bytes [] h = inl refl
repeated-IsSound sbn ss bytes (q ∷ qs) (e, h) = inr (ap some e)

abbrev frames : List (List ℕ)
frames = (7 ∷ 8 ∷ []) ∷ []

all_data-frames : all_data 6 frames ≡ 2 ∷ 0 ∷ 7 ∷ 8 ∷ 0 ∷ 0 ∷ []
unfolding all_data symbol_data
all_data-frames = refl

try_decode-add_all_example :
    (try_decode repeated
      (add_all (new_decoder 1 6) 300 ((3, 2 ∷ 0 ∷ 7 ∷ 8 ∷ 0 ∷ 0 ∷ []) ∷ []) 5)
      300
      9).0
    ≡ some ((7 ∷ 8 ∷ []) ∷ [])
try_decode-add_all_example =
    try_decode-add_all repeated IsRepeat 6 300 5 9 frames (3, 2 ∷ 0 ∷ 7 ∷ 8 ∷ 0 ∷ 0 ∷ []) []
      repeated-IsSound (omega arith) (omega arith, tt) ((sym all_data-frames, refl), tt)
