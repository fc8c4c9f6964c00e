-- ===== src/Client/Candidates/Dialing.antt =====
-- Which addresses of a peer are dialled.
use wzp.Common.{
  ℕ, ◌≡◌, ◌↔◌, refl, inl, inr, true, not, ◌&&◌, ◌||◌, List, [], ◌∷◌, ◌++◌, Option, none, some,
  arith, Bool-cases, ==_iff,
}
use wzp.Common.Keyed.{retain}
use wzp.Client.Stun.{SocketAddr, v4, v6}
use wzp.Client.Candidates.{
  bytes_eq, ip_eq, port, addr_eq, is_ipv6, contains_addr, is_addr, PeerCandidates, push_new,
  dial_order, same_network, push_ipv4, smart_dial_order,
}

pub bytes_eq_iff : (xs ys : List ℕ) → (bytes_eq xs ys ≡ true) ↔ (xs ≡ ys)
unfolding bytes_eq
bytes_eq_iff [] [] = (λ h. refl, λ h. refl)
bytes_eq_iff [] (y ∷ ys) = ground arith
bytes_eq_iff (x ∷ xs) [] = ground arith
bytes_eq_iff (x ∷ xs) (y ∷ ys) = ground (arith, bytes_eq_iff xs ys, ==_iff x y)

pub addr_eq_iff : (a b : SocketAddr) → (addr_eq a b ≡ true) ↔ (a ≡ b)
unfolding addr_eq ip_eq port
addr_eq_iff (v4 a p) (v4 b q) = ground (arith, bytes_eq_iff a b, ==_iff p q)
addr_eq_iff (v6 a p) (v6 b q) = ground (arith, bytes_eq_iff a b, ==_iff p q)
addr_eq_iff (v4 a p) (v6 b q) = ground arith
addr_eq_iff (v6 a p) (v4 b q) = ground arith

contains-append :
    (a : SocketAddr) (xs ys : List SocketAddr)
    → contains_addr a (xs ++ ys) ≡ (contains_addr a xs || contains_addr a ys)
unfolding contains_addr
contains-append a [] ys = refl
contains-append a (x ∷ xs) ys = ground (arith, contains-append a xs ys)

contains-retain :
    (a : SocketAddr) (xs : List SocketAddr)
    → contains_addr a (retain (λ b. not (is_ipv6 b)) xs) ≡ (not (is_ipv6 a) && contains_addr a xs)
unfolding contains_addr retain
contains-retain a [] = ground arith
contains-retain a (x ∷ xs) = ground (arith, contains-retain a xs, addr_eq_iff x a)

contains_one : (a b : SocketAddr) → contains_addr a (b ∷ []) ≡ addr_eq b a
unfolding contains_addr
contains_one a b = ground arith

contains-push_new :
    (a : SocketAddr) (o : Option SocketAddr) (out : List SocketAddr)
    → contains_addr a (push_new o out) ≡ (contains_addr a out || is_addr o a)
unfolding push_new is_addr
contains-push_new a none out = ground arith
contains-push_new a (some b) out =
    ground (arith, contains-append a out (b ∷ []), addr_eq_iff b a, contains_one a b)

contains-push_ipv4 :
    (a : SocketAddr) (o : Option SocketAddr) (out : List SocketAddr)
    → contains_addr a (push_ipv4 o out) ≡ (contains_addr a out || (not (is_ipv6 a) && is_addr o a))
unfolding push_ipv4 is_addr
contains-push_ipv4 a none out = ground arith
contains-push_ipv4 a (some b) out =
    ground (arith, contains-append a out (b ∷ []), addr_eq_iff b a, contains_one a b)

-- The addresses in the full order are exactly the peer's; and those that are really dialled are
-- exactly its IPv4 addresses, its local ones only when it is seen at the same public address.
pub smart_dial_order-dials :
    (c : PeerCandidates) (own : Option SocketAddr) (a : SocketAddr)
    → (contains_addr a (dial_order c)
        ≡ (contains_addr a c.local || (is_addr c.mapped a || is_addr c.reflexive a)))
      × (contains_addr a (smart_dial_order c own) ≡ (
          not (is_ipv6 a)
          && ((same_network own c.reflexive && contains_addr a c.local)
              || (is_addr c.mapped a || is_addr c.reflexive a))))
unfolding dial_order smart_dial_order contains_addr
smart_dial_order-dials c own a = (
  ground (
    arith,
    contains-push_new a c.reflexive (push_new c.mapped c.local),
    contains-push_new a c.mapped c.local,
  ),
  elim (Bool-cases (same_network own c.reflexive)) [
    | inl e ↦ rw e (
        ground (
          arith,
          contains-push_ipv4 a c.reflexive
              (push_ipv4 c.mapped (retain (λ b. not (is_ipv6 b)) c.local)),
          contains-push_ipv4 a c.mapped (retain (λ b. not (is_ipv6 b)) c.local),
          contains-retain a c.local,
        ))
    | inr e ↦ rw e (
        ground (
          arith,
          contains-push_ipv4 a c.reflexive (push_ipv4 c.mapped []),
          contains-push_ipv4 a c.mapped [],
        ))
  ],
)
