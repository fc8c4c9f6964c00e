-- ===== src/Crypto/Nonce.antt =====
-- crates/wzp-crypto/src/nonce.rs: the 12-byte nonce of a packet.
use wzp.Common.{ℕ, ◌/◌, ◌%◌, ◌≡◌, List, [], ◌∷◌, ◌++◌, arith}

pub data Direction : Type 0 where
  send recv : Direction

-- `direction as u8`
unfoldable pub direction_byte : Direction → ℕ
direction_byte send = 0
direction_byte recv = 1

-- `[u8; 4]`
pub record SessionId : Type 0 where
  pub b0 : ℕ
  pub b1 : ℕ
  pub b2 : ℕ
  pub b3 : ℕ

-- `seq.to_be_bytes()` of the standard library
abbrev pub to_be_bytes : ℕ → List ℕ
to_be_bytes n = n / 16777216 ∷ n / 65536 % 256 ∷ n / 256 % 256 ∷ n % 256 ∷ []

unfoldable pub build_nonce : SessionId → ℕ → Direction → List ℕ
build_nonce s seq d =
    (s.b0 ∷ s.b1 ∷ s.b2 ∷ s.b3 ∷ []) ++ (to_be_bytes seq ++ direction_byte d ∷ 0 ∷ 0 ∷ 0 ∷ [])

-- Two nonces are the same only if the session, the sequence number and the direction are.
pub build_nonce-injective :
    (s t : SessionId) (m n : ℕ) (d e : Direction)
    → build_nonce s m d ≡ build_nonce t n e
    → (s ≡ t) × (m ≡ n) × (d ≡ e)
unfolding build_nonce direction_byte
build_nonce-injective s t m n send send h = ground arith
build_nonce-injective s t m n _ _ h = ground arith
