-- ===== src/Client/Stun/Match.antt =====
-- Only the answer to the client's own request is taken.
use wzp.Common.{ℕ, ◌≡◌, refl, Bool, true, false, List, [], ◌∷◌, arith, ==_iff, ap, ap₂, ◌∙◌}
use wzp.Client.Stun.{
  Result, ok, err, panicked, ◌>>=◌, StunError, require, u16_at, slice, SocketAddr, same_bytes,
  cookie_bytes, check_header, parse_binding_response,
}

module _ {ℓ κ} {A : Type ℓ} {B : Type κ} where
  bind-ok :
      (r : Result A) (f : A → Result B) (b : B)
      → (r >>= f) ≡ ok b
      → (a : A) × ((r ≡ ok a) × (f a ≡ ok b))
  bind-ok (ok a) f b e = (a, (refl, e))
  bind-ok (err x) f b e = cc
  bind-ok panicked f b e = cc

module _ {ℓ} {A : Type ℓ} where
  require-ok :
      (b : Bool) (x : StunError) (r : Result A) (a : A)
      → require b x r ≡ ok a
      → (b ≡ true) × (r ≡ ok a)
  require-ok true x r a e = (refl, e)
  require-ok false x r a e = cc

same_bytes_eq : (xs ys : List ℕ) → same_bytes xs ys ≡ true → xs ≡ ys
unfolding same_bytes
same_bytes_eq [] [] h = refl
same_bytes_eq [] (y ∷ ys) h = absurd (ground (arith, h))
same_bytes_eq (x ∷ xs) [] h = absurd (ground (arith, h))
same_bytes_eq (x ∷ xs) (y ∷ ys) h =
    ap₂ (λ z zs. z ∷ zs) (ground (arith, h)) (same_bytes_eq xs ys (ground (arith, h)))

-- The type of a binding response, the cookie and the transaction stand at their places.
pub record IsReply (buf txn_id : List ℕ) : Type 0 where
  pub is_response : u16_at buf 0 ≡ ok 0x0101
  pub has_cookie : slice buf 4 8 ≡ ok cookie_bytes
  pub has_txn : slice buf 8 20 ≡ ok txn_id

check_header-ok :
    (buf txn_id : List ℕ) (msg_type msg_len : ℕ) (cookie : List ℕ) (a : SocketAddr)
    → check_header buf txn_id msg_type msg_len cookie ≡ ok a
    → (cookie ≡ cookie_bytes) × ((msg_type ≡ 0x0101) × (slice buf 8 20 ≡ ok txn_id))
unfolding check_header
check_header-ok buf txn_id msg_type msg_len cookie a e =
    let c = require-ok _ _ _ a e in
    let n = require-ok _ _ _ a c.1 in
    let t = require-ok _ _ _ a n.1 in
    let s = bind-ok (slice buf 8 20) _ a t.1 in
    let m = require-ok _ _ _ a s.1.1 in
    (
      same_bytes_eq cookie cookie_bytes c.0,
      ((==_iff msg_type 0x0101).0 t.0, s.1.0 ∙ ap ok (same_bytes_eq s.0 txn_id m.0)),
    )

-- A packet from which an address is taken is a binding response with the cookie of the protocol and the
-- transaction that the client asks for.
pub parse_binding_response-IsReply :
    (buf txn_id : List ℕ) (a : SocketAddr)
    → parse_binding_response buf txn_id ≡ ok a
    → IsReply buf txn_id
unfolding parse_binding_response
parse_binding_response-IsReply buf txn_id a e =
    let l = require-ok _ _ _ a e in
    let t = bind-ok (u16_at buf 0) _ a l.1 in
    let n = bind-ok (u16_at buf 2) _ a t.1.1 in
    let c = bind-ok (slice buf 4 8) _ a n.1.1 in
    let h = check_header-ok buf txn_id t.0 n.0 c.0 a c.1.1 in
    record {
      is_response = t.1.0 ∙ ap ok (h.1.0);
      has_cookie = c.1.0 ∙ ap ok (h.0);
      has_txn = h.1.1;
    }
