-- ===== src/Client/Stun/Safety.antt =====
-- The reading of a STUN packet stays within the packet.
use wzp.Common.{
  ℕ, zero, suc, ◌+◌, ◌≤◌, ◌<◌, ◌≡◌, refl, Bool, true, false, not, ◌&&◌, List, [], ◌∷◌, arith, leb,
  ltb, ◌==◌, if◌then◌else◌, length, leb→le,
}
use wzp.Client.Stun.{
  Result, ok, err, panicked, ◌>>=◌, StunError, malformed, require, byte_at, u16_at, slice,
  parse_mapped_address, parse_xor_mapped_address, ok_of, Found, take_attribute, walk, best,
  read_attributes, check_header, parse_binding_response, same_bytes, error_response_type,
  binding_response_type, error_response, txn_mismatch, cookie_bytes, none_found,
}

-- No panic.
abbrev pub IsSafe {ℓ} : {A : Type ℓ} → Result A → Type 0
IsSafe (ok a) = Unit
IsSafe (err e) = Unit
IsSafe panicked = ⊥

module _ {ℓ κ} {A : Type ℓ} {B : Type κ} where
  pub bind-IsSafe :
      (r : Result A) (f : A → Result B)
      → IsSafe r
      → ((a : A) → r ≡ ok a → IsSafe (f a))
      → IsSafe (r >>= f)
  bind-IsSafe (ok a) f h g = g a refl
  bind-IsSafe (err e) f h g = tt
  bind-IsSafe panicked f h g = absurd h

module _ {ℓ} {A : Type ℓ} where
  pub require-IsSafe :
      (b : Bool) (e : StunError) (r : Result A) → (b ≡ true → IsSafe r) → IsSafe (require b e r)
  require-IsSafe true e r h = h refl
  require-IsSafe false e r h = tt

  pub if-IsSafe :
      (b : Bool) (r s : Result A)
      → (b ≡ true → IsSafe r)
      → (b ≡ false → IsSafe s)
      → IsSafe (if b then r else s)
  if-IsSafe true r s h g = h refl
  if-IsSafe false r s h g = g refl

  pub ok_of-IsSafe : (r : Result A) → IsSafe r → IsSafe (ok_of r)
  unfolding ok_of
  ok_of-IsSafe (ok a) h = tt
  ok_of-IsSafe (err e) h = tt
  ok_of-IsSafe panicked h = h

pub byte_at-IsSafe : (xs : List ℕ) (i : ℕ) → i < length xs → IsSafe (byte_at xs i)
unfolding byte_at
byte_at-IsSafe [] i h = absurd (omega arith)
byte_at-IsSafe (x ∷ xs) zero h = tt
byte_at-IsSafe (x ∷ xs) (suc i) h = byte_at-IsSafe xs i (omega arith)

pub u16_at-IsSafe : (xs : List ℕ) (i : ℕ) → i + 1 < length xs → IsSafe (u16_at xs i)
unfolding u16_at
u16_at-IsSafe xs i h =
    bind-IsSafe (byte_at xs i) _ (byte_at-IsSafe xs i (omega arith))
      (λ hi e. bind-IsSafe (byte_at xs (i + 1)) _ (byte_at-IsSafe xs (i + 1) h) (λ lo d. tt))

pub slice-IsSafe : (xs : List ℕ) (a b : ℕ) → a ≤ b → b ≤ length xs → IsSafe (slice xs a b)
unfolding slice
slice-IsSafe xs a b h g =
    if-IsSafe (leb a b && leb b (length xs)) _ _ (λ e. tt) (λ e. absurd (ground (arith, e, h, g)))

pub parse_mapped_address-IsSafe : (value : List ℕ) → IsSafe (parse_mapped_address value)
unfolding parse_mapped_address
parse_mapped_address-IsSafe value = require-IsSafe (leb 4 (length value)) malformed _ (λ h.
    bind-IsSafe (byte_at value 1) _ (byte_at-IsSafe value 1 (ground (arith, h))) (λ family e.
      bind-IsSafe (u16_at value 2) _ (u16_at-IsSafe value 2 (ground (arith, h))) (λ port d.
        if-IsSafe (family == 1) _ _
          (λ f. require-IsSafe (leb 8 (length value)) malformed _ (λ k.
            bind-IsSafe (slice value 4 8) _
              (slice-IsSafe value 4 8 (omega arith) (ground (arith, k))) (λ ip c. tt)))
          (λ f.
            if-IsSafe (family == 2) _ _
              (λ g. require-IsSafe (leb 20 (length value)) malformed _ (λ k.
                bind-IsSafe (slice value 4 20) _
                  (slice-IsSafe value 4 20 (omega arith) (ground (arith, k))) (λ ip c. tt)))
              (λ g. tt)))))

pub parse_xor_mapped_address-IsSafe :
    (value txn_id : List ℕ) → IsSafe (parse_xor_mapped_address value txn_id)
unfolding parse_xor_mapped_address
parse_xor_mapped_address-IsSafe value txn_id =
    require-IsSafe (leb 4 (length value)) malformed _ (λ h.
      bind-IsSafe (byte_at value 1) _ (byte_at-IsSafe value 1 (ground (arith, h))) (λ family e.
        bind-IsSafe (u16_at value 2) _ (u16_at-IsSafe value 2 (ground (arith, h))) (λ port d.
          if-IsSafe (family == 1) _ _
            (λ f. require-IsSafe (leb 8 (length value)) malformed _ (λ k.
              bind-IsSafe (slice value 4 8) _
                (slice-IsSafe value 4 8 (omega arith) (ground (arith, k))) (λ ip c. tt)))
            (λ f.
              if-IsSafe (family == 2) _ _
                (λ g. require-IsSafe (leb 20 (length value)) malformed _ (λ k.
                  bind-IsSafe (slice value 4 20) _
                    (slice-IsSafe value 4 20 (omega arith) (ground (arith, k))) (λ ip c. tt)))
                (λ g. tt)))))

take_attribute-IsSafe :
    (f : Found) (attr_type : ℕ) (value txn_id : List ℕ)
    → IsSafe (take_attribute f attr_type value txn_id)
unfolding take_attribute
take_attribute-IsSafe f attr_type value txn_id =
    if-IsSafe (attr_type == 0x0020) _ _
      (λ e.
        bind-IsSafe (ok_of (parse_xor_mapped_address value txn_id)) _
          (ok_of-IsSafe _ (parse_xor_mapped_address-IsSafe value txn_id)) (λ a d. tt))
      (λ e.
        if-IsSafe (attr_type == 1) _ _
          (λ g.
            bind-IsSafe (ok_of (parse_mapped_address value)) _
              (ok_of-IsSafe _ (parse_mapped_address-IsSafe value)) (λ a d. tt))
          (λ g. tt))

walk-IsSafe :
    (n : ℕ) (attrs txn_id : List ℕ) (pos : ℕ) (f : Found) → IsSafe (walk n attrs txn_id pos f)
unfolding walk
walk-IsSafe zero attrs txn_id pos f = tt
walk-IsSafe (suc n) attrs txn_id pos f =
    if-IsSafe (leb (pos + 4) (length attrs)) _ _
      (λ h.
        bind-IsSafe (u16_at attrs pos) _ (u16_at-IsSafe attrs pos (ground (arith, h)))
          (λ attr_type e.
            bind-IsSafe (u16_at attrs (pos + 2)) _
              (u16_at-IsSafe attrs (pos + 2) (ground (arith, h)))
              (λ attr_len d.
                if-IsSafe (ltb (length attrs) (pos + 4 + attr_len)) _ _ (λ k. tt)
                  (λ k.
                    bind-IsSafe (slice attrs (pos + 4) (pos + 4 + attr_len)) _
                      (slice-IsSafe attrs (pos + 4) (pos + 4 + attr_len) (omega arith)
                        (ground (arith, k)))
                      (λ value c.
                        bind-IsSafe (take_attribute f attr_type value txn_id) _
                          (take_attribute-IsSafe f attr_type value txn_id)
                          (λ g b. walk-IsSafe n attrs txn_id _ g))))))
      (λ h. tt)

best-IsSafe : (f : Found) → IsSafe (best f)
unfolding best
best-IsSafe f = ground arith

read_attributes-IsSafe :
    (buf : List ℕ) (msg_len : ℕ) (txn_id : List ℕ) → IsSafe (read_attributes buf msg_len txn_id)
unfolding read_attributes
read_attributes-IsSafe buf msg_len txn_id =
    require-IsSafe (leb (20 + msg_len) (length buf)) malformed _ (λ h.
      bind-IsSafe (slice buf 20 (20 + msg_len)) _
        (slice-IsSafe buf 20 (20 + msg_len) (omega arith) (ground (arith, h)))
        (λ attrs a.
          bind-IsSafe (walk (length attrs) attrs txn_id 0 none_found) _
            (walk-IsSafe (length attrs) attrs txn_id 0 none_found) (λ found z. best-IsSafe found)))

check_header-IsSafe :
    (buf txn_id : List ℕ) (msg_type msg_len : ℕ) (cookie : List ℕ)
    → 20 ≤ length buf
    → IsSafe (check_header buf txn_id msg_type msg_len cookie)
unfolding check_header
check_header-IsSafe buf txn_id msg_type msg_len cookie h =
    require-IsSafe (same_bytes cookie cookie_bytes) malformed _ (λ a.
      require-IsSafe (not (msg_type == error_response_type)) error_response _ (λ b.
        require-IsSafe (msg_type == binding_response_type) malformed _ (λ c.
          bind-IsSafe (slice buf 8 20) _ (slice-IsSafe buf 8 20 (omega arith) h) (λ txn d.
            require-IsSafe (same_bytes txn txn_id) txn_mismatch _
              (λ e. read_attributes-IsSafe buf msg_len txn_id)))))

-- Whatever bytes come back from the network, reading them as a response never indexes or slices out of
-- range.
pub parse_binding_response-IsSafe :
    (buf txn_id : List ℕ) → IsSafe (parse_binding_response buf txn_id)
unfolding parse_binding_response
parse_binding_response-IsSafe buf txn_id = require-IsSafe (leb 20 (length buf)) malformed _ (λ h.
    bind-IsSafe (u16_at buf 0) _ (u16_at-IsSafe buf 0 (ground (arith, h))) (λ msg_type e.
      bind-IsSafe (u16_at buf 2) _ (u16_at-IsSafe buf 2 (ground (arith, h))) (λ msg_len d.
        bind-IsSafe (slice buf 4 8) _ (slice-IsSafe buf 4 8 (omega arith) (ground (arith, h)))
          (λ cookie c.
            check_header-IsSafe buf txn_id msg_type msg_len cookie (leb→le 20 (length buf) h)))))
