-- ===== src/Fec/Coding/RoundTrip.antt =====
-- What was protected comes out: the frames of a block through the encoder's layout and the decoder.
use wzp.Common.{
  ℕ, zero, suc, ◌+◌, ◌-◌, ◌*◌, ◌/◌, ◌%◌, ◌≤◌, ◌<◌, ◌≡◌, ◌⊎◌, refl, sym, ap, ◌∙◌, subst, min, false,
  List, [], ◌∷◌, ◌++◌, Option, none, some, arith, bit_and, length, take, drop, replicate,
  length-append, length-take, take-append, take-length, drop-append, append_assoc, append-nil, map,
  All, ==_refl, inl, inr,
}
use wzp.Common.Words.{u16_mod}
use wzp.Fec.Coding.{
  symbol_data, all_data, EncodingPacket, BlockState, RaptorQFecDecoder, new_decoder, or_fresh,
  reopen, pad, append_packet, add_symbol, frame_of, split_frames, decode_block, try_decode,
}

length-replicate : (n x : ℕ) → length {A = ℕ} (replicate n x) ≡ n
length-replicate zero x = refl
length-replicate (suc n) x = ap suc (length-replicate n x)

-- A frame fits in a symbol next to its length.
abbrev pub FitsIn : ℕ → List ℕ → Type 0
FitsIn ss f = length f + 2 ≤ ss

length-symbol_data : (ss : ℕ) (f : List ℕ) → FitsIn ss f → length (symbol_data ss f) ≡ ss
unfolding symbol_data
length-symbol_data ss f h =
    let n = min (length f) (ss - 2) in
    omega (
      arith,
      h,
      length-append (take n f) (replicate (ss - 2 - n) 0),
      length-take n f,
      length-replicate (ss - 2 - n) 0,
    )

length_read :
    (n m : ℕ) → n < u16_mod → n ≤ m → min (n % u16_mod % 256 + 256 * (n % u16_mod / 256)) m ≡ n
length_read n m h l = omega arith

frame_of-symbol_data :
    (ss : ℕ) (f rest : List ℕ)
    → ss < u16_mod
    → FitsIn ss f
    → frame_of (symbol_data ss f ++ rest) ≡ f
unfolding symbol_data frame_of
frame_of-symbol_data ss f rest l h =
    let n : min (length f) (ss - 2) ≡ length f = omega (arith, h) in
    let zeros = replicate (ss - 2 - length f) 0 in
    let size = length-append f (zeros ++ rest) in
    rw (n, take-length f, append_assoc f zeros rest)
      (rw
        (length_read (length f) (length (f ++ (zeros ++ rest))) (omega (arith, l, h))
          (omega (arith, size)))
        (take-append f (zeros ++ rest)))

drop-symbol_data :
    (ss : ℕ) (f rest : List ℕ) → FitsIn ss f → drop ss (symbol_data ss f ++ rest) ≡ rest
drop-symbol_data ss f rest h =
    subst (λ n. drop n (symbol_data ss f ++ rest) ≡ rest) (length-symbol_data ss f h)
      (drop-append (symbol_data ss f) rest)

pub split_frames-all_data :
    (ss : ℕ) (fs : List (List ℕ))
    → ss < u16_mod
    → All (FitsIn ss) fs
    → split_frames (length fs) ss (all_data ss fs) ≡ fs
unfolding split_frames all_data
split_frames-all_data ss [] l h = refl
split_frames-all_data ss (f ∷ fs) l (h, hs) =
    rw
      (
        frame_of-symbol_data ss f (all_data ss fs) l h,
        drop-symbol_data ss f (all_data ss fs) h,
        split_frames-all_data ss fs l hs,
      )
      refl

-- What the decoder is given of a block: the packets of it, in any order.
abbrev pub add_all : RaptorQFecDecoder → ℕ → List (ℕ × List ℕ) → ℕ → RaptorQFecDecoder
add_all s id [] now = s
add_all s id ((index, bytes) ∷ ps) now = add_all (add_symbol s id index bytes now) id ps now

abbrev pub packet_of : ℕ → ℕ × List ℕ → EncodingPacket
packet_of id p = record { block_number = bit_and id 0xFF; symbol_id = p.0; bytes = p.1 }

pad-same : (ss : ℕ) (bytes : List ℕ) → length bytes ≡ ss → pad ss bytes ≡ bytes
unfolding pad
pad-same ss bytes e =
    let all : min (length bytes) ss ≡ length bytes = omega (arith, e) in
    let none_left : ss - length bytes ≡ 0 = omega (arith, e) in
    rw (all, none_left, take-length bytes) (append-nil bytes)

-- A block that is being gathered.
abbrev gathering : ℕ → ℕ → List EncodingPacket → BlockState
gathering n ss qs = record {
  num_source_symbols = some n;
  packets = qs;
  symbol_size = ss;
  decoded = false;
  result = none;
  decoded_at = none;
}

append_packet-append :
    (qs : List EncodingPacket) (q : EncodingPacket) → append_packet qs q ≡ qs ++ (q ∷ [])
unfolding append_packet
append_packet-append [] q = refl
append_packet-append (r ∷ qs) q = ap (λ xs. r ∷ xs) (append_packet-append qs q)

add_symbol-gathering :
    (s : RaptorQFecDecoder) (id n now : ℕ) (qs : List EncodingPacket) (p : ℕ × List ℕ)
    → or_fresh s (s.blocks id) ≡ gathering n s.symbol_size qs
    → length p.1 ≡ s.symbol_size
    → ((add_symbol s id p.0 p.1 now).blocks id
        ≡ some (gathering n s.symbol_size (qs ++ (packet_of id p ∷ []))))
      × ((add_symbol s id p.0 p.1 now).symbol_size ≡ s.symbol_size)
unfolding add_symbol reopen
add_symbol-gathering s id n now qs p e l =
    rw
      (
        add_symbol,
        e,
        pad-same s.symbol_size p.1 l,
        append_packet-append qs (packet_of id p),
        ==_refl id,
      )
      (refl, refl)

add_all-gathering :
    (s : RaptorQFecDecoder) (id n ss now : ℕ) (qs : List EncodingPacket) (ps : List (ℕ × List ℕ))
    → s.symbol_size ≡ ss
    → s.blocks id ≡ some (gathering n ss qs)
    → All (λ p. length p.1 ≡ ss) ps
    → (add_all s id ps now).blocks id ≡ some (gathering n ss (qs ++ map (packet_of id) ps))
add_all-gathering s id n ss now qs [] z e h =
    e ∙ ap (λ xs. some (gathering n ss xs)) (sym (append-nil qs))
add_all-gathering s id n ss now qs (p ∷ ps) z e (h, hs) =
    let (e', z') =
      add_symbol-gathering s id n now qs p (ap (or_fresh s) e ∙ ap (λ x. gathering n x qs) (sym z))
        (h ∙ sym z) in
    let ih =
      add_all-gathering (add_symbol s id p.0 p.1 now) id n ss now (qs ++ (packet_of id p ∷ [])) ps
        (z' ∙ z) (e' ∙ ap (λ x. some (gathering n x (qs ++ (packet_of id p ∷ [])))) z) hs in
    ih
    ∙ ap (λ xs. some (gathering n ss xs))
        (append_assoc qs (packet_of id p ∷ []) (map (packet_of id) ps))

length-all_data :
    (ss : ℕ) (fs : List (List ℕ)) → All (FitsIn ss) fs → length (all_data ss fs) ≡ length fs * ss
unfolding all_data
length-all_data ss [] h = omega arith
length-all_data ss (f ∷ fs) (h, hs) = omega (
  arith,
  length-append (symbol_data ss f) (all_data ss fs),
  length-symbol_data ss f h,
  length-all_data ss fs hs,
)

-- `raptorq`: the packets of a block never decode to anything but the data of the block.
abbrev pub IsSound :
    (ℕ → ℕ → ℕ → List EncodingPacket → Option (List ℕ))
    → (ℕ → ℕ → List ℕ → EncodingPacket → Type 0)
    → Type 0
IsSound decode Genuine =
    (sbn ss : ℕ) (bytes : List ℕ) (qs : List EncodingPacket)
    → All (Genuine sbn ss bytes) qs
    → (decode sbn (length bytes) ss qs ≡ none) ⊎ (decode sbn (length bytes) ss qs ≡ some bytes)

All-left {ℓ κ λ'} :
    {A : Type ℓ} (P : A → Type κ) (Q : A → Type λ') (xs : List A)
    → All (λ x. P x × Q x) xs
    → All P xs × All Q xs
All-left P Q [] h = (tt, tt)
All-left P Q (x ∷ xs) ((a, b), h) = let (as', bs) = All-left P Q xs h in ((a, as'), (b, bs))

All-map {ℓ κ μ} :
    {A : Type ℓ} {B : Type κ} (P : B → Type μ) (f : A → B) (xs : List A)
    → All (λ x. P (f x)) xs
    → All P (map f xs)
All-map P f [] h = tt
All-map P f (x ∷ xs) (a, h) = (a, All-map P f xs h)

-- The frames of a full block are what a new decoder gives that is set to blocks of as many frames,
-- exactly when the erasure code can decode the packets that arrived: any packets of the block, at
-- least one, source or repair, in any order. A symbol, of fewer than 2^16 bytes, has room for every
-- frame and its length. Of a block with fewer frames than the decoder is set to, nothing is said.
pub try_decode-add_all :
    (decode : ℕ → ℕ → ℕ → List EncodingPacket → Option (List ℕ))
    (Genuine : ℕ → ℕ → List ℕ → EncodingPacket → Type 0) (ss id now later : ℕ) (fs : List (List ℕ))
    (p : ℕ × List ℕ) (ps : List (ℕ × List ℕ))
    → IsSound decode Genuine
    → ss < u16_mod
    → All (FitsIn ss) fs
    → All
        (λ q. Genuine (bit_and id 0xFF) ss (all_data ss fs) (packet_of id q) × (length q.1 ≡ ss))
        (p ∷ ps)
    → (try_decode decode (add_all (new_decoder (length fs) ss) id (p ∷ ps) now) id later).0
      ≡ (elim (decode (bit_and id 0xFF) (length fs * ss) ss (map (packet_of id) (p ∷ ps))) [
        | none ↦ none
        | some d ↦ some fs
      ])
unfolding try_decode decode_block new_decoder
try_decode-add_all decode Genuine ss id now later fs p ps sound l h (g, gs) =
    let first = new_decoder (length fs) ss in
    let (e, z) = add_symbol-gathering first id (length fs) now [] p refl g.1 in
    let (genuine, sizes) =
      All-left (λ q. Genuine (bit_and id 0xFF) ss (all_data ss fs) (packet_of id q))
        (λ q. length q.1 ≡ ss) ps gs in
    let there =
      add_all-gathering (add_symbol first id p.0 p.1 now) id (length fs) ss now
        (packet_of id p ∷ []) ps z e sizes in
    let qs = map (packet_of id) (p ∷ ps) in
    let law =
      sound (bit_and id 0xFF) ss (all_data ss fs) (map (packet_of id) (p ∷ ps))
        (g.0, All-map (Genuine (bit_and id 0xFF) ss (all_data ss fs)) (packet_of id) ps genuine) in
    let law' : (decode (bit_and id 0xFF) (length fs * ss) ss qs ≡ none)
        ⊎ (decode (bit_and id 0xFF) (length fs * ss) ss qs ≡ some (all_data ss fs)) =
      subst
        (λ n.
          (decode (bit_and id 0xFF) n ss qs ≡ none)
          ⊎ (decode (bit_and id 0xFF) n ss qs ≡ some (all_data ss fs)))
        (length-all_data ss fs h) law in
    elim law' [
      | inl n ↦ rw (try_decode, there, decode_block, n) refl
      | inr d ↦ rw (try_decode, there, decode_block, d) (ap some (split_frames-all_data ss fs l h))
    ]
