-- ===== src/Wire/Trunk/Total.antt =====
-- The trunk decoder on arbitrary bytes.
use wzp.Common.{ℕ, zero, suc, ◌+◌, ◌*◌, ◌≢◌, List, ◌∷◌, panicked, arith, inl, inr, Outcome-cases}
use wzp.Wire.Buf.{ByteBuf}
use wzp.Wire.Trunk.{decode_entry, decode_entries, decode}

module _ (w : ByteBuf) where
  open w use {get_u8_takes, get_u16_takes, advance_drops}

  decode_entry_safe : (b : List ℕ) → decode_entry w b ≢ panicked
  unfolding decode_entry
  decode_entry_safe (a0 ∷ a1 ∷ a2 ∷ a3 ∷ r) = ground (
    arith,
    get_u8_takes a0 (a1 ∷ a2 ∷ a3 ∷ r),
    get_u8_takes a1 (a2 ∷ a3 ∷ r),
    get_u16_takes a2 a3 r,
    advance_drops (a2 * 256 + a3) r,
  )
  decode_entry_safe _ = ground arith

  decode_entries_safe : (n : ℕ) (b : List ℕ) → decode_entries w n b ≢ panicked
  unfolding decode_entries
  decode_entries_safe zero b = ground arith
  decode_entries_safe (suc n) b = elim (Outcome-cases (decode_entry w b)) [
    | inl ((e, r), q) ↦ rw q (ground (arith, decode_entries_safe n r))
    | inr (inl q) ↦ rw q (ground arith)
    | inr (inr q) ↦ absurd (decode_entry_safe b q)
  ]

  -- No datagram makes the trunk decoder panic.
  pub decode_safe : (b : List ℕ) → decode w b ≢ panicked
  unfolding decode
  decode_safe (a0 ∷ a1 ∷ r) =
      ground (arith, get_u16_takes a0 a1 r, decode_entries_safe (a0 * 256 + a1) r)
  decode_safe _ = ground arith
