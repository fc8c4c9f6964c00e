-- ===== src/Client/Stun.antt =====
-- crates/wzp-client/src/stun.rs: the packets of STUN (RFC 5389), as a client writes and reads them. A
-- packet is a list of bytes. An index or a slice out of range is `panicked`; the texts of the errors
-- are left out. The loop over the attributes takes rounds as a bound, the number of their bytes, of
-- which each round takes four at least.
pub mod Safety
pub mod Writer
pub mod Attributes
pub mod RoundTrip
pub mod Match
mod Tests
use wzp.Common.{
  ℕ, zero, suc, ◌+◌, ◌-◌, ◌*◌, ◌%◌, bit_xor, Bool, true, false, not, ◌&&◌, List, [], ◌∷◌, ◌++◌,
  Option, none, some, leb, ltb, ◌==◌, if◌then◌else◌, length, take, drop,
}

pub data StunError : Type 0 where
  malformed txn_mismatch error_response no_mapped_address : StunError

pub data Result {ℓ} (A : Type ℓ) : Type ℓ where
  ok : A → Result A
  err : StunError → Result A
  panicked : Result A

infixl 10 ◌>>=◌
abbrev pub ◌>>=◌ {ℓ κ} : {A : Type ℓ} {B : Type κ} → Result A → (A → Result B) → Result B
ok a >>= f = f a
err e >>= f = err e
panicked >>= f = panicked

abbrev pub require {ℓ} : {A : Type ℓ} → Bool → StunError → Result A → Result A
require true e r = r
require false e r = err e

-- `buf[i]`
unfoldable pub byte_at : List ℕ → ℕ → Result ℕ
byte_at [] i = panicked
byte_at (x ∷ xs) zero = ok x
byte_at (x ∷ xs) (suc i) = byte_at xs i

-- `u16::from_be_bytes([buf[i], buf[i + 1]])`
unfoldable pub u16_at : List ℕ → ℕ → Result ℕ
u16_at xs i = do hi ← byte_at xs i; lo ← byte_at xs (i + 1); ok (hi * 256 + lo)

-- `&buf[a..b]`
unfoldable pub slice : List ℕ → ℕ → ℕ → Result (List ℕ)
slice xs a b = if leb a b && leb b (length xs) then ok (take (b - a) (drop a xs)) else panicked

abbrev pub cookie_bytes : List ℕ
cookie_bytes = 0x21 ∷ 0x12 ∷ 0xA4 ∷ 0x42 ∷ []

-- The upper half of the cookie.
abbrev pub cookie_port : ℕ
cookie_port = 0x2112

abbrev pub attr_mapped_address : ℕ
attr_mapped_address = 0x0001

abbrev pub attr_xor_mapped_address : ℕ
attr_xor_mapped_address = 0x0020

-- `BINDING_RESPONSE` and the type of an error response.
abbrev pub binding_response_type : ℕ
binding_response_type = 0x0101

abbrev pub error_response_type : ℕ
error_response_type = 0x0111

abbrev pub header_len : ℕ
header_len = 20

-- `SocketAddr`: the bytes of the address and the port.
pub data SocketAddr : Type 0 where
  v4 v6 : List ℕ → ℕ → SocketAddr

unfoldable pub encode_binding_request : List ℕ → List ℕ
encode_binding_request txn_id = (0x00 ∷ 0x01 ∷ 0 ∷ 0 ∷ []) ++ (cookie_bytes ++ txn_id)

unfoldable pub parse_mapped_address : List ℕ → Result SocketAddr
parse_mapped_address value = require (leb 4 (length value)) malformed (do
  family ← byte_at value 1
  port ← u16_at value 2
  if family == 0x01
      then require (leb 8 (length value)) malformed (do ip ← slice value 4 8; ok (v4 ip port))
      else (if family == 0x02
          then require (leb 20 (length value)) malformed (do ip ← slice value 4 20; ok (v6 ip port))
          else err malformed))

-- The bytes of an address with the key, byte by byte.
unfoldable pub xor_bytes : List ℕ → List ℕ → List ℕ
xor_bytes [] ks = []
xor_bytes (x ∷ xs) [] = []
xor_bytes (x ∷ xs) (k ∷ ks) = bit_xor x k ∷ xor_bytes xs ks

unfoldable pub parse_xor_mapped_address : List ℕ → List ℕ → Result SocketAddr
parse_xor_mapped_address value txn_id = require (leb 4 (length value)) malformed (do
  family ← byte_at value 1
  xport ← u16_at value 2
  if family == 0x01
      then require (leb 8 (length value)) malformed
          (do ip ← slice value 4 8; ok (v4 (xor_bytes ip cookie_bytes) (bit_xor xport cookie_port)))
      else (if family == 0x02
          then require (leb 20 (length value)) malformed (do
            ip ← slice value 4 20
            ok (v6 (xor_bytes ip (cookie_bytes ++ txn_id)) (bit_xor xport cookie_port)))
          else err malformed))

-- `.ok()`
unfoldable pub ok_of {ℓ} : {A : Type ℓ} → Result A → Result (Option A)
ok_of (ok a) = ok (some a)
ok_of (err e) = ok none
ok_of panicked = panicked

-- The addresses found so far: from MAPPED-ADDRESS and from XOR-MAPPED-ADDRESS.
pub record Found : Type 0 where
  pub mapped : Option SocketAddr
  pub xor_mapped : Option SocketAddr

unfoldable pub take_attribute : Found → ℕ → List ℕ → List ℕ → Result Found
take_attribute f attr_type value txn_id =
    if attr_type == attr_xor_mapped_address
    then ok_of (parse_xor_mapped_address value txn_id) >>= (λ a. ok (record f { xor_mapped = a }))
    else (if attr_type == attr_mapped_address
        then ok_of (parse_mapped_address value) >>= (λ a. ok (record f { mapped = a }))
        else ok f)

abbrev pub padding : ℕ → ℕ
padding attr_len = (4 - attr_len % 4) % 4

unfoldable pub walk : ℕ → List ℕ → List ℕ → ℕ → Found → Result Found
walk zero attrs txn_id pos f = ok f
walk (suc n) attrs txn_id pos f =
    if leb (pos + 4) (length attrs)
    then (u16_at attrs pos >>= (λ attr_type. u16_at attrs (pos + 2) >>= (λ attr_len.
        if ltb (length attrs) (pos + 4 + attr_len)
        then ok f
        else (slice attrs (pos + 4) (pos + 4 + attr_len) >>= (λ value.
            take_attribute f attr_type value txn_id
            >>= (λ g. walk n attrs txn_id (pos + 4 + attr_len + padding attr_len) g))))))
    else ok f

unfoldable pub same_bytes : List ℕ → List ℕ → Bool
same_bytes [] [] = true
same_bytes [] (y ∷ ys) = false
same_bytes (x ∷ xs) [] = false
same_bytes (x ∷ xs) (y ∷ ys) = (x == y) && same_bytes xs ys

-- `xor_mapped.or(mapped).ok_or(NoMappedAddress)`
unfoldable pub best : Found → Result SocketAddr
best f = elim f.xor_mapped [
  | some a ↦ ok a
  | none ↦ elim f.mapped [ some a ↦ ok a | none ↦ err no_mapped_address ]
]

abbrev pub none_found : Found
none_found = record { mapped = none; xor_mapped = none }

-- The walk over the attributes of a message that is the awaited one.
unfoldable pub read_attributes : List ℕ → ℕ → List ℕ → Result SocketAddr
read_attributes buf msg_len txn_id = require (leb (header_len + msg_len) (length buf)) malformed (do
  attrs ← slice buf header_len (header_len + msg_len)
  found ← walk (length attrs) attrs txn_id 0 none_found
  best found)

-- The checks of the header's fields.
unfoldable pub check_header : List ℕ → List ℕ → ℕ → ℕ → List ℕ → Result SocketAddr
check_header buf txn_id msg_type msg_len cookie =
    require (same_bytes cookie cookie_bytes) malformed (
      require (not (msg_type == error_response_type)) error_response (
        require (msg_type == binding_response_type) malformed (do
          txn ← slice buf 8 20
          require (same_bytes txn txn_id) txn_mismatch (read_attributes buf msg_len txn_id))))

unfoldable pub parse_binding_response : List ℕ → List ℕ → Result SocketAddr
parse_binding_response buf txn_id = require (leb header_len (length buf)) malformed (do
  msg_type ← u16_at buf 0
  msg_len ← u16_at buf 2
  cookie ← slice buf 4 8
  check_header buf txn_id msg_type msg_len cookie)
