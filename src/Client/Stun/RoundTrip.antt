-- ===== src/Client/Stun/RoundTrip.antt =====
-- A response written as RFC 5389 says is read as the address that it carries.
use wzp.Common.{
  ℕ, ◌+◌, ◌*◌, ◌/◌, ◌%◌, ◌≡◌, ◌≢◌, refl, true, List, [], ◌∷◌, ◌++◌, some, arith, leb, length, ap,
  ◌∙◌, subst, length-append, All,
}
use wzp.Client.Stun.{
  ok, ◌>>=◌, byte_at, u16_at, slice, SocketAddr, parse_xor_mapped_address, ok_of, Found,
  take_attribute, best, same_bytes, cookie_bytes, none_found, read_attributes, check_header,
  parse_binding_response,
}
use wzp.Client.Stun.Writer.{
  attributes, u16_bytes, response, xor_value, IsAddress, parse_xor_value, take_other, slice_tail,
  slice-append,
}
use wzp.Client.Stun.Attributes.{take_all, walk_all, attributes_long}

-- Not XOR-MAPPED-ADDRESS, which MAPPED-ADDRESS may be.
abbrev pub IsOther : ℕ × List ℕ → Type 0
IsOther (t, v) = t ≢ 0x20

take_kept :
    (f : Found) (ats : List (ℕ × List ℕ)) (txn_id : List ℕ)
    → All IsOther ats
    → (g : Found) × ((take_all f ats txn_id ≡ ok g) × (g.xor_mapped ≡ f.xor_mapped))
unfolding take_all
take_kept f [] txn_id h = (f, (refl, refl))
take_kept f ((t, v) ∷ ats) txn_id h =
    let one = take_other f t v txn_id h.0 in
    let rest = take_kept one.0 ats txn_id h.1 in
    (rest.0, (rw one.1.0 (rest.1.0), rest.1.1 ∙ one.1.1))

take_found :
    (f : Found) (before after : List (ℕ × List ℕ)) (a : SocketAddr) (v txn_id : List ℕ)
    → All IsOther before
    → All IsOther after
    → parse_xor_mapped_address v txn_id ≡ ok a
    → (g : Found) × ((take_all f (before ++ ((0x20, v) ∷ after)) txn_id ≡ ok g)
        × (g.xor_mapped ≡ some a))
unfolding take_all take_attribute ok_of
take_found f [] after a v txn_id b c e =
    let rest = take_kept (record f { xor_mapped = some a }) after txn_id c in
    (rest.0, (rw e (rest.1.0), rest.1.1))
take_found f ((t, w) ∷ before) after a v txn_id b c e =
    let one = take_other f t w txn_id b.0 in
    let rest = take_found one.0 before after a v txn_id b.1 c e in
    (rest.0, (rw one.1.0 (rest.1.0), rest.1.1))

same_bytes_refl : (xs : List ℕ) → same_bytes xs xs ≡ true
unfolding same_bytes
same_bytes_refl [] = refl
same_bytes_refl (x ∷ xs) = ground (arith, same_bytes_refl xs)

-- The parts of a response, at their places.
module _ (txn_id : List ℕ) (ats : List (ℕ × List ℕ)) (h : length txn_id ≡ 12) where
  abbrev start : List ℕ
  start = 0x01 ∷ 0x01 ∷ u16_bytes (length (attributes ats))

  type_read : u16_at (response txn_id ats) 0 ≡ ok 257
  unfolding response u16_at byte_at
  type_read = refl

  length_read :
      u16_at (response txn_id ats) 2
      ≡ ok (length (attributes ats) / 256 * 256 + length (attributes ats) % 256)
  unfolding response u16_at byte_at
  length_read = refl

  cookie_read : slice (response txn_id ats) 4 8 ≡ ok cookie_bytes
  unfolding response
  cookie_read = slice-append start cookie_bytes (txn_id ++ attributes ats)

  txn_read : slice (response txn_id ats) 8 20 ≡ ok txn_id
  unfolding response
  txn_read =
      let place : 8 + length txn_id ≡ 20 = omega arith in
      subst (λ n. slice (response txn_id ats) 8 n ≡ ok txn_id) place
        (slice-append (start ++ cookie_bytes) txn_id (attributes ats))

  attributes_read :
      (n : ℕ)
      → n ≡ length (attributes ats)
      → slice (response txn_id ats) 20 (20 + n) ≡ ok (attributes ats)
  unfolding response
  attributes_read n e =
      let place : length ((start ++ cookie_bytes) ++ txn_id) ≡ 20 = omega arith in
      subst (λ k. slice (response txn_id ats) k (20 + n) ≡ ok (attributes ats)) place
        (slice_tail ((start ++ cookie_bytes) ++ txn_id) (attributes ats) (20 + n) (omega arith))

  length-response : length (response txn_id ats) ≡ 20 + length (attributes ats)
  unfolding response
  length-response = omega (arith, length-append txn_id (attributes ats))

  read_attributes_lem :
      (n : ℕ)
      → n ≡ length (attributes ats)
      → read_attributes (response txn_id ats) n txn_id ≡ (take_all none_found ats txn_id >>= best)
  unfolding read_attributes
  read_attributes_lem n e =
      let whole : leb (20 + n) (length (response txn_id ats)) ≡ true =
        ground (arith, length-response) in
      let walked =
        walk_all (length (attributes ats)) [] ats txn_id none_found (attributes_long ats) in
      rw (whole, attributes_read n e) (ap (λ r. r >>= best) walked)

  -- The header of a response is accepted.
  read_response :
      parse_binding_response (response txn_id ats) txn_id
      ≡ (take_all none_found ats txn_id >>= best)
  unfolding parse_binding_response check_header
  read_response =
      let whole : leb 20 (length (response txn_id ats)) ≡ true = ground (arith, length-response) in
      rw
        (
          whole,
          type_read,
          length_read,
          cookie_read,
          same_bytes_refl cookie_bytes,
          txn_read,
          same_bytes_refl txn_id,
        )
        (read_attributes_lem _ (omega arith))

best_xor : (f : Found) (a : SocketAddr) → f.xor_mapped ≡ some a → best f ≡ ok a
unfolding best
best_xor f a e = rw e refl

-- The address that a server reports in XOR-MAPPED-ADDRESS comes back, IPv4 or IPv6, wherever the
-- attribute stands and whatever other attributes of any length there are before and behind it:
-- MAPPED-ADDRESS does not override it.
pub parse_binding_response-response :
    (a : SocketAddr) (txn_id : List ℕ) (before after : List (ℕ × List ℕ))
    → IsAddress a
    → length txn_id ≡ 12
    → All IsOther before
    → All IsOther after
    → parse_binding_response
        (response txn_id (before ++ ((0x20, xor_value a txn_id) ∷ after)))
        txn_id
      ≡ ok a
parse_binding_response-response a txn_id before after i l b c =
    let ats = before ++ ((0x20, xor_value a txn_id) ∷ after) in
    let found =
      take_found none_found before after a (xor_value a txn_id) txn_id b c
        (parse_xor_value a txn_id i l) in
    read_response txn_id ats l ∙ (ap (λ r. r >>= best) found.1.0 ∙ best_xor found.0 a found.1.1)
