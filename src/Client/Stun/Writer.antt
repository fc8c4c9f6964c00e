-- ===== src/Client/Stun/Writer.antt =====
-- The writer of RFC 5389, and the value of one attribute read back.
use wzp.Common.{
  ℕ, suc, ◌+◌, ◌-◌, ◌*◌, ◌/◌, ◌%◌, ◌≤◌, ◌≡◌, ◌≢◌, refl, bit_xor, true, ◌&&◌, List, [], ◌∷◌, ◌++◌,
  none, some, arith, leb, ◌==◌, length, take, replicate, inl, inr, Bool-cases, ap, ap₂, ◌∙◌, sym,
  length-append, take-append, drop-append, append-nil, ==_ne,
}
use wzp.Common.BitSums.{bit_xor-again}
use wzp.Client.Stun.{
  Result, ok, err, panicked, byte_at, u16_at, slice, SocketAddr, v4, v6, xor_bytes,
  parse_mapped_address, parse_xor_mapped_address, ok_of, Found, take_attribute, padding,
  cookie_bytes, cookie_port,
}
use wzp.Client.Stun.Safety.{IsSafe, parse_mapped_address-IsSafe}

-- The writer that the RFC describes: an attribute has its type and its length before the value, and
-- zeros behind it up to a multiple of four.
abbrev pub u16_bytes : ℕ → List ℕ
u16_bytes n = n / 256 ∷ n % 256 ∷ []

unfoldable pub attribute : ℕ × List ℕ → List ℕ
attribute (t, v) = u16_bytes t ++ (u16_bytes (length v) ++ (v ++ replicate (padding (length v)) 0))

unfoldable pub attributes : List (ℕ × List ℕ) → List ℕ
attributes [] = []
attributes (a ∷ ats) = attribute a ++ attributes ats

-- The value of XOR-MAPPED-ADDRESS: the address and the port with the cookie, and a longer address also
-- with the transaction.
unfoldable pub xor_value : SocketAddr → List ℕ → List ℕ
xor_value (v4 ip port) txn_id =
    (0 ∷ 0x01 ∷ []) ++ (u16_bytes (bit_xor port cookie_port) ++ xor_bytes ip cookie_bytes)
xor_value (v6 ip port) txn_id =
    (0 ∷ 0x02 ∷ [])
    ++ (u16_bytes (bit_xor port cookie_port) ++ xor_bytes ip (cookie_bytes ++ txn_id))

unfoldable pub response : List ℕ → List (ℕ × List ℕ) → List ℕ
response txn_id ats =
    (0x01 ∷ 0x01 ∷ [])
    ++ (u16_bytes (length (attributes ats)) ++ (cookie_bytes ++ (txn_id ++ attributes ats)))

-- The number of bytes of an address.
abbrev pub IsAddress : SocketAddr → Type 0
IsAddress (v4 ip port) = length ip ≡ 4
IsAddress (v6 ip port) = length ip ≡ 16

xor_bytes-again : (xs ks : List ℕ) → length xs ≤ length ks → xor_bytes (xor_bytes xs ks) ks ≡ xs
unfolding xor_bytes
xor_bytes-again [] ks h = refl
xor_bytes-again (x ∷ xs) [] h = absurd (omega arith)
xor_bytes-again (x ∷ xs) (k ∷ ks) h =
    ap₂ (λ y ys. y ∷ ys) (bit_xor-again x k) (xor_bytes-again xs ks (omega arith))

length-xor_bytes : (xs ks : List ℕ) → length xs ≤ length ks → length (xor_bytes xs ks) ≡ length xs
unfolding xor_bytes
length-xor_bytes [] ks h = refl
length-xor_bytes (x ∷ xs) [] h = absurd (omega arith)
length-xor_bytes (x ∷ xs) (k ∷ ks) h = ap suc (length-xor_bytes xs ks (omega arith))

pub slice-append :
    (pre v post : List ℕ) → slice (pre ++ (v ++ post)) (length pre) (length pre + length v) ≡ ok v
unfolding slice
slice-append pre v post =
    elim (Bool-cases (
      leb (length pre) (length pre + length v)
      && leb (length pre + length v) (length (pre ++ (v ++ post))))) [
        | inl e ↦ rw e (ap ok (ap₂ take n_eq (drop-append pre (v ++ post)) ∙ take-append v post))
        | inr e ↦ absurd (ground (arith, e, length-append pre (v ++ post), length-append v post))
      ]
  where
    n_eq : length pre + length v - length pre ≡ length v
    n_eq = omega arith

pub slice_tail :
    (pre v : List ℕ) (n : ℕ) → length pre + length v ≡ n → slice (pre ++ v) (length pre) n ≡ ok v
slice_tail pre v n h =
    ap₂ (λ xs k. slice xs (length pre) k) (ap (λ xs. pre ++ xs) (sym (append-nil v))) (sym h)
    ∙ slice-append pre v []

port_again :
    (port : ℕ)
    → bit_xor (bit_xor port cookie_port / 256 * 256 + bit_xor port cookie_port % 256) cookie_port
      ≡ port
port_again port = ap (λ x. bit_xor x cookie_port) (omega arith) ∙ bit_xor-again port cookie_port

pub parse_xor_value :
    (a : SocketAddr) (txn_id : List ℕ)
    → IsAddress a
    → length txn_id ≡ 12
    → parse_xor_mapped_address (xor_value a txn_id) txn_id ≡ ok a
unfolding parse_xor_mapped_address xor_value byte_at u16_at
parse_xor_value (v4 ip port) txn_id h l =
    let masked = xor_bytes ip cookie_bytes in
    let n = length-xor_bytes ip cookie_bytes (omega arith) in
    rw
      (slice_tail (0 ∷ 1 ∷ bit_xor port cookie_port / 256 ∷ bit_xor port cookie_port % 256 ∷ [])
        masked 8 (omega (arith, n)))
      (rw (n, h) (ap ok (ap₂ v4 (xor_bytes-again ip cookie_bytes (omega arith)) (port_again port))))
parse_xor_value (v6 ip port) txn_id h l =
    let key = cookie_bytes ++ txn_id in
    let masked = xor_bytes ip key in
    let long : length ip ≤ length key = omega arith in
    let n = length-xor_bytes ip key long in
    rw
      (slice_tail (0 ∷ 2 ∷ bit_xor port cookie_port / 256 ∷ bit_xor port cookie_port % 256 ∷ [])
        masked 20 (omega (arith, n)))
      (rw (n, h) (ap ok (ap₂ v6 (xor_bytes-again ip key long) (port_again port))))

-- Attributes of another type leave what was found.
pub take_other :
    (f : Found) (t : ℕ) (v txn_id : List ℕ)
    → t ≢ 0x20
    → (g : Found) × ((take_attribute f t v txn_id ≡ ok g) × (g.xor_mapped ≡ f.xor_mapped))
unfolding take_attribute ok_of
take_other f t v txn_id h = elim (Bool-cases (t == 1)) [
  | inl e ↦ mapped_either (parse_mapped_address v) (parse_mapped_address-IsSafe v) e refl
  | inr e ↦ (f, (rw (==_ne t 0x20 h, e) refl, refl))
]
  where
    mapped_either :
        (r : Result SocketAddr)
        → IsSafe r
        → (t == 1) ≡ true
        → parse_mapped_address v ≡ r
        → (g : Found) × ((take_attribute f t v txn_id ≡ ok g) × (g.xor_mapped ≡ f.xor_mapped))
    mapped_either (ok a) s one e =
        (record f { mapped = some a }, (rw (==_ne t 0x20 h, one, e) refl, refl))
    mapped_either (err x) s one e =
        (record f { mapped = none }, (rw (==_ne t 0x20 h, one, e) refl, refl))
    mapped_either panicked s one e = absurd s
