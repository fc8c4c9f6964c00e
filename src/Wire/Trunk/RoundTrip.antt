-- ===== src/Wire/Trunk/RoundTrip.antt =====
-- A trunk frame survives the wire, and its size is the one announced.
use wzp.Common.{
  ℕ, ◌%◌, ◌<◌, ◌≡◌, refl, List, [], ◌∷◌, ◌++◌, ok, arith, length, length-append, append_assoc,
  take-append, drop-append, All,
}
use wzp.Common.Words.{u16_mod}
use wzp.Wire.Buf.{ByteBuf, get_u16-put_u16, length-put_u16}
use wzp.Wire.Trunk.{
  TrunkEntry, TrunkFrame, len, total_size, wire_size, encode_entry, encode_entries, encode,
  decode_entry, decode_entries, decode,
}

abbrev pub IsEntry : TrunkEntry → Type 0
IsEntry e = length e.payload < u16_mod

module _ (w : ByteBuf) where
  open w use {put_u16, get_u8_takes, advance_drops}

  decode_entry-encode_entry :
      (e : TrunkEntry) (r : List ℕ) → IsEntry e → decode_entry w (encode_entry w e ++ r) ≡ ok (e, r)
  unfolding decode_entry encode_entry
  decode_entry-encode_entry e r h =
      let n = length e.payload % u16_mod in
      let c = put_u16 n ++ (e.payload ++ r) in
      rw (append_assoc (put_u16 n) e.payload r) (
        ground (
          arith,
          get_u8_takes e.id_high (e.id_low ∷ c),
          get_u8_takes e.id_low c,
          get_u16-put_u16 w n (e.payload ++ r),
          length-append (put_u16 n) (e.payload ++ r),
          length-append e.payload r,
          length-put_u16 w n,
          advance_drops (length e.payload) (e.payload ++ r),
          take-append e.payload r,
          drop-append e.payload r,
        ))

  decode_entries-encode_entries :
      (es : List TrunkEntry) (r : List ℕ)
      → All IsEntry es
      → decode_entries w (length es) (encode_entries w es ++ r) ≡ ok es
  unfolding decode_entries encode_entries
  decode_entries-encode_entries [] r h = refl
  decode_entries-encode_entries (e ∷ es) r h =
      rw
        (
          append_assoc (encode_entry w e) (encode_entries w es) r,
          decode_entry-encode_entry e (encode_entries w es ++ r) h.0,
          decode_entries-encode_entries es r h.1,
        )
        refl

  length-encode_entries : (es : List TrunkEntry) → length (encode_entries w es) ≡ total_size es
  unfolding encode_entries encode_entry
  length-encode_entries [] = refl
  length-encode_entries (e ∷ es) =
      let n = length e.payload % u16_mod in
      omega (
        arith,
        length-append (e.id_high ∷ e.id_low ∷ put_u16 n ++ e.payload) (encode_entries w es),
        length-append (put_u16 n) e.payload,
        length-put_u16 w n (omega arith),
        length-encode_entries es,
      )

  -- The encoding is as long as `wire_size` says, for every frame.
  pub length-encode : (f : TrunkFrame) → length (encode w f) ≡ wire_size f
  unfolding encode wire_size
  length-encode f =
      let n = len f % u16_mod in
      omega (
        arith,
        length-append (put_u16 n) (encode_entries w f.packets),
        length-put_u16 w n (omega arith),
        length-encode_entries f.packets,
      )

  -- A frame of fewer than 2^16 entries, each of fewer than 2^16 bytes, is decoded from its encoding,
  -- whatever bytes follow it.
  pub decode-encode :
      (f : TrunkFrame) (r : List ℕ)
      → len f < u16_mod
      → All IsEntry f.packets
      → decode w (encode w f ++ r) ≡ ok f
  unfolding decode encode
  decode-encode f r h v =
      let n = len f % u16_mod in
      let b = encode_entries w f.packets in
      rw (append_assoc (put_u16 n) b r) (
        ground (
          arith,
          get_u16-put_u16 w n (b ++ r),
          length-append (put_u16 n) (b ++ r),
          length-put_u16 w n,
          decode_entries-encode_entries f.packets r v,
        ))
