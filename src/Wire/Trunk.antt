-- ===== src/Wire/Trunk.antt =====
-- crates/wzp-proto/src/packet.rs: the trunk frame, which carries packets of several sessions in one
-- datagram.
pub mod RoundTrip
pub mod Total
use wzp.Common.{
  ℕ, zero, suc, ◌+◌, ◌%◌, Bool, true, false, List, [], ◌∷◌, ◌++◌, Outcome, ok, absent, panicked,
  ◌>>=◌, ◌>>◌, ensure, or_panic, leb, ◌==◌, length, take,
}
use wzp.Common.Words.{u16_mod}
use wzp.Wire.Buf.{ByteBuf}

-- `TrunkEntry`, its two-byte session identifier as two bytes.
pub record TrunkEntry : Type 0 where
  pub id_high : ℕ
  pub id_low : ℕ
  pub payload : List ℕ

abbrev pub overhead : ℕ
overhead = 4

-- `TrunkFrame`
pub record TrunkFrame : Type 0 where
  pub packets : List TrunkEntry

abbrev pub empty_frame : TrunkFrame
empty_frame = record { packets = [] }

unfoldable pub push : TrunkFrame → TrunkEntry → TrunkFrame
push f e = record { packets = f.packets ++ e ∷ [] }

abbrev pub len : TrunkFrame → ℕ
len f = length f.packets

abbrev pub is_empty : TrunkFrame → Bool
is_empty f = len f == 0

abbrev pub entry_size : TrunkEntry → ℕ
entry_size e = overhead + length e.payload

abbrev pub total_size : List TrunkEntry → ℕ
total_size [] = 0
total_size (e ∷ es) = entry_size e + total_size es

unfoldable pub wire_size : TrunkFrame → ℕ
wire_size f = 2 + total_size f.packets

module _ (w : ByteBuf) where
  open w use {put_u8, put_u16, get_u8, get_u16, advance}

  -- The body of the loop of `encode`.
  unfoldable pub encode_entry : TrunkEntry → List ℕ
  encode_entry e =
      (e.id_high ∷ e.id_low ∷ []) ++ (put_u16 (length e.payload % u16_mod) ++ e.payload)

  unfoldable pub encode_entries : List TrunkEntry → List ℕ
  encode_entries [] = []
  encode_entries (e ∷ es) = encode_entry e ++ encode_entries es

  unfoldable pub encode : TrunkFrame → List ℕ
  encode f = put_u16 (len f % u16_mod) ++ encode_entries f.packets

  -- One round of the loop of `decode`.
  unfoldable pub decode_entry : List ℕ → Outcome (TrunkEntry × List ℕ)
  decode_entry cursor = do
    ensure (leb overhead (length cursor))
    (high, c1) ← or_panic (get_u8 cursor)
    (low, c2) ← or_panic (get_u8 c1)
    (size, c3) ← or_panic (get_u16 c2)
    ensure (leb size (length c3))
    rest ← or_panic (advance size c3)
    ok (record { id_high = high; id_low = low; payload = take size c3 }, rest)

  unfoldable pub decode_entries : ℕ → List ℕ → Outcome (List TrunkEntry)
  decode_entries zero cursor = ok []
  decode_entries (suc n) cursor = do
    (e, rest) ← decode_entry cursor
    es ← decode_entries n rest
    ok (e ∷ es)

  unfoldable pub decode : List ℕ → Outcome TrunkFrame
  decode buf = do
    ensure (leb 2 (length buf))
    (count, cursor) ← or_panic (get_u16 buf)
    packets ← decode_entries count cursor
    ok (record { packets = packets })
