-- ===== src/Video/Av1/Units.antt =====
-- The units that the framer writes are the ones that `split_obus` finds.
use wzp.Common.{
  ℕ, zero, suc, ◌+◌, ◌-◌, ◌≤◌, ◌<◌, ◌≡◌, ◌⊎◌, refl, ap, ◌∙◌, ap₂, Bool, true, false, ◌&&◌, not,
  List, [], ◌∷◌, ◌++◌, arith, ltb, ◌==◌, length, Bool-cases, inl, inr, ok, panicked, append_assoc,
  length-append, append-nil, take-append, drop-append, All, Option, none, some,
}
use wzp.Common.Words.{u64_mod}
use wzp.Common.BitSums.{all_below, all_below_holds}
use wzp.Video.Av1.{
  ObuHeader, from_byte, to_byte, Obu, overflowed, got, take_payload, after_header, next_obu,
  split_loop, split_obus, encode_obu, write_leb128, fill, push_packet, Av1ObuFramer, frame,
  Av1Depacketizer, new_depacketizer, emit, push,
}
use wzp.Video.Av1.Leb128.{read_leb128-write_leb128}

-- The header byte of a type and the two flags.
abbrev pub header : ℕ → Bool → Bool → ObuHeader
header t s e = record { obu_type = t; has_size_field = s; extension_flag = e }

abbrev same_flag : Bool → Bool → Bool
same_flag true b = b
same_flag false b = not b

abbrev header_test : Bool → Bool → ℕ → Bool
header_test s e t =
    let h = from_byte (to_byte (header t s e)) in
    (h.obu_type == t) && (same_flag h.has_size_field s && same_flag h.extension_flag e)

header_tests : (s e : Bool) (t : ℕ) → t < 16 → header_test s e t ≡ true
unfolding all_below from_byte to_byte
header_tests true true t h = all_below_holds 16 (header_test true true) t refl h
header_tests true false t h = all_below_holds 16 (header_test true false) t refl h
header_tests false true t h = all_below_holds 16 (header_test false true) t refl h
header_tests false false t h = all_below_holds 16 (header_test false false) t refl h

same_flag_eq : (a b : Bool) → same_flag a b ≡ true → a ≡ b
same_flag_eq true true h = refl
same_flag_eq true false h = absurd (ground arith)
same_flag_eq false true h = absurd (ground arith)
same_flag_eq false false h = refl

header_cong :
    (t t' : ℕ) (s s' e e' : Bool) → t ≡ t' → s ≡ s' → e ≡ e' → header t s e ≡ header t' s' e'
header_cong t t' s s' e e' a b c = ap₂ (λ x y. header x y e) a b ∙ ap (header t' s') c

-- A header of a type below sixteen is what its byte is read as.
pub from_byte-to_byte : (h : ObuHeader) → h.obu_type < 16 → from_byte (to_byte h) ≡ h
from_byte-to_byte h l =
    let s = h.has_size_field in
    let e = h.extension_flag in
    let test = header_tests s e h.obu_type l in
    let (a, b, c) : ((from_byte (to_byte h)).obu_type == h.obu_type ≡ true)
        × (same_flag (from_byte (to_byte h)).has_size_field s ≡ true)
        × (same_flag (from_byte (to_byte h)).extension_flag e ≡ true) =
      ground (arith, test) in
    header_cong _ _ _ _ _ _ (ground (arith, a)) (same_flag_eq _ _ b) (same_flag_eq _ _ c)

-- A unit that the framer writes in full: it carries its size, and it has no extension byte.
abbrev pub IsFull : Obu → Type 0
IsFull u =
    (u.header.obu_type < 16) × (u.header.has_size_field ≡ true) × (u.header.extension_flag ≡ false)

pub next_obu-encode_obu :
    (i : ℕ) (u : Obu) (r : List ℕ)
    → IsFull u
    → i + length (encode_obu u) < u64_mod
    → next_obu i (encode_obu u ++ r) ≡ got u r
unfolding next_obu encode_obu after_header take_payload
next_obu-encode_obu i u r (t, s, e) l =
    let d = write_leb128 (length u.payload) ++ u.payload ++ r in
    let sizes = length-append (write_leb128 (length u.payload)) u.payload in
    let same = from_byte-to_byte u.header t in
    let size = read_leb128-write_leb128 (length u.payload) (u.payload ++ r) (omega arith) in
    rw
      (
        same,
        e,
        s,
        append_assoc (write_leb128 (length u.payload)) u.payload r,
        size,
        drop-append (write_leb128 (length u.payload)) (u.payload ++ r),
        take-append u.payload r,
        drop-append u.payload r,
      )
      (ground (arith, sizes, length-append u.payload r))

abbrev pub encode_all : List Obu → List ℕ
encode_all [] = []
encode_all (u ∷ us) = encode_obu u ++ encode_all us

encode_obu-length : (u : Obu) → 0 < length (encode_obu u)
unfolding encode_obu
encode_obu-length u = omega arith

no_more : (fuel total : ℕ) → split_loop (suc fuel) total [] ≡ ok []
unfolding split_loop next_obu
no_more fuel total = refl

split_loop-encode_all :
    (fuel total : ℕ) (us : List Obu)
    → All IsFull us
    → length (encode_all us) ≤ fuel
    → length (encode_all us) ≤ total
    → total < u64_mod
    → split_loop fuel total (encode_all us) ≡ ok us
unfolding split_loop
split_loop-encode_all zero total [] a h k l = refl
split_loop-encode_all zero total (u ∷ us) a h k l =
    absurd (omega (arith, length-append (encode_obu u) (encode_all us), encode_obu-length u))
split_loop-encode_all (suc fuel) total [] a h k l = no_more fuel total
split_loop-encode_all (suc fuel) total (u ∷ us) (f, a) h k l =
    let len = length-append (encode_obu u) (encode_all us) in
    let pos = encode_obu-length u in
    let here =
      next_obu-encode_obu (total - length (encode_obu u ++ encode_all us)) u (encode_all us) f
        (omega arith) in
    let ih = split_loop-encode_all fuel total us a (omega arith) (omega arith) l in
    rw (split_loop, here, ih) refl

-- `split_obus` finds exactly the units that were written, whole.
pub split_obus-encode_all :
    (us : List Obu)
    → All IsFull us
    → length (encode_all us) < u64_mod
    → split_obus (encode_all us) ≡ ok us
unfolding split_obus split_loop
split_obus-encode_all us a l =
    split_loop-encode_all (length (encode_all us)) (length (encode_all us)) us a (omega arith)
      (omega arith) l

-- What the framer sends: the packets, put together, are the units, each whole.
abbrev pub concat : List (List ℕ) → List ℕ
concat [] = []
concat (p ∷ ps) = p ++ concat ps

concat-push_packet : (p : List ℕ) (ps : List (List ℕ)) → concat (push_packet p ps) ≡ p ++ concat ps
concat-push_packet [] ps = refl
concat-push_packet (b ∷ p) ps = refl

pub concat-fill :
    (max : ℕ) (current : List ℕ) (us : List Obu)
    → concat (fill max current us) ≡ current ++ encode_all us
unfolding fill
concat-fill max current [] = concat-push_packet current []
concat-fill max current (u ∷ us) =
    elim (Bool-cases
      (not (length current == 0) && ltb max (length current + length (encode_obu u)))) [
        | inl t ↦ rw (t, concat-fill max (encode_obu u) us) refl
        | inr t ↦
            rw
              (
                t,
                concat-fill max (current ++ encode_obu u) us,
                append_assoc current (encode_obu u) (encode_all us),
              )
              refl
      ]

-- A packet keeps to the limit, or it is one unit alone.
abbrev pub Fits : ℕ → List ℕ → Type 0
Fits max p = (length p ≤ max) ⊎ ((u : Obu) × (p ≡ encode_obu u))

added-Fits :
    (max : ℕ) (current : List ℕ) (u : Obu)
    → not (length current == 0) && ltb max (length current + length (encode_obu u)) ≡ false
    → Fits max (current ++ encode_obu u)
added-Fits max [] u t = inr (u, refl)
added-Fits max (b ∷ c) u t = inl (ground (arith, length-append (b ∷ c) (encode_obu u)))

fill-Fits :
    (max : ℕ) (current : List ℕ) (us : List Obu)
    → Fits max current
    → All (Fits max) (fill max current us)
unfolding fill
fill-Fits max [] [] f = tt
fill-Fits max (b ∷ c) [] f = (f, tt)
fill-Fits max current (u ∷ us) f =
    elim (Bool-cases
      (not (length current == 0) && ltb max (length current + length (encode_obu u)))) [
        | inl t ↦ rw t (f, fill-Fits max (encode_obu u) us (inr (u, refl)))
        | inr t ↦ rw t (fill-Fits max (current ++ encode_obu u) us (added-Fits max current u t))
      ]

-- A depacketizer that is pushed the packets, the last of them as the end of the frame: what it gives.
unfoldable pub put_first : Option (List ℕ) → List (List ℕ) → List (List ℕ)
put_first none rest = rest
put_first (some d) rest = d ∷ rest

unfoldable pub push_all : Av1Depacketizer → List (List ℕ) → List (List ℕ)
push_all s [] = []
push_all s (p ∷ []) = put_first (push s p true).0 []
push_all s (p ∷ q ∷ ps) = put_first (push s p false).0 (push_all (push s p false).1 (q ∷ ps))

emit_more : (d : List ℕ) → emit false d ≡ (none, record { buffer = d })
unfolding emit
emit_more [] = refl
emit_more (b ∷ d) = refl

emit_end : (d : List ℕ) → 0 < length d → (emit true d).0 ≡ some d
unfolding emit
emit_end [] h = absurd (omega arith)
emit_end (b ∷ d) h = refl

push_all-concat :
    (held p : List ℕ) (ps : List (List ℕ))
    → 0 < length (held ++ concat (p ∷ ps))
    → push_all (record { buffer = held }) (p ∷ ps) ≡ (held ++ concat (p ∷ ps)) ∷ []
unfolding push_all push put_first
push_all-concat held p [] h =
    let whole : p ++ [] ≡ p = append-nil p in rw (whole, emit_end (held ++ p) (rw whole at h)) refl
push_all-concat held p (q ∷ ps) h =
    let joined = append_assoc held p (concat (q ∷ ps)) in
    rw (emit_more (held ++ p), ← joined) (push_all-concat (held ++ p) q ps (rw (← joined) at h))

push_all_joined :
    (ps : List (List ℕ)) (d : List ℕ)
    → concat ps ≡ d
    → 0 < length d
    → push_all new_depacketizer ps ≡ d ∷ []
unfolding new_depacketizer
push_all_joined [] d e h = absurd (omega (arith, ap length e, h))
push_all_joined (p ∷ ps) d e h =
    push_all-concat [] p ps (omega (arith, ap length e, h)) ∙ ap (λ x. x ∷ []) e

-- An access unit that splits into units, at least one, which carry their size and no extension: the
-- framer sends packets that keep to the limit unless they are one unit alone, and a new depacketizer
-- that is pushed them in order, the last as the end of the frame, gives one access unit once, which
-- splits into the same units. Their bytes are fewer than 2^64.
pub frame_lem :
    (f : Av1ObuFramer) (d : List ℕ) (u : Obu) (us : List Obu)
    → split_obus d ≡ ok (u ∷ us)
    → All IsFull (u ∷ us)
    → length (encode_all (u ∷ us)) < u64_mod
    → (ps : List (List ℕ)) × (out : List ℕ) × (frame f d ≡ ok ps)
      × All (Fits f.max_payload) ps
      × (push_all new_depacketizer ps ≡ out ∷ [])
      × (split_obus out ≡ ok (u ∷ us))
unfolding frame
frame_lem f d u us found a l = (
  fill f.max_payload [] (u ∷ us),
  encode_all (u ∷ us),
  rw found refl,
  fill-Fits f.max_payload [] (u ∷ us) (inl (omega arith)),
  push_all_joined _ _ (concat-fill f.max_payload [] (u ∷ us))
      (omega (arith, length-append (encode_obu u) (encode_all us), encode_obu-length u)),
  split_obus-encode_all (u ∷ us) a l,
)

overflowing :
    (i t size : ℕ) (r : List ℕ)
    → t < 16
    → size < u64_mod
    → u64_mod ≤ i + 1 + length (write_leb128 size) + size
    → next_obu i (to_byte (header t true false) ∷ (write_leb128 size ++ r)) ≡ overflowed
unfolding next_obu after_header take_payload
overflowing i t size r h l o =
    let same = from_byte-to_byte (header t true false) h in
    rw (same, read_leb128-write_leb128 size r l) (ground (arith, o))

-- A unit whose header says that a size follows, where the size brings the offset behind it to 2^64
-- or more: the whole call panics, whatever bytes follow.
pub split_obus_panic :
    (t size : ℕ) (r : List ℕ)
    → t < 16
    → size < u64_mod
    → u64_mod ≤ 1 + length (write_leb128 size) + size
    → split_obus (to_byte (header t true false) ∷ (write_leb128 size ++ r)) ≡ panicked
unfolding split_obus split_loop
split_obus_panic t size r h l o =
    let d = to_byte (header t true false) ∷ (write_leb128 size ++ r) in
    rw (split_loop, overflowing (length d - length d) t size r h l (omega (arith, o))) refl
