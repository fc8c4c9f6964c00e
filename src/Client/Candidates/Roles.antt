-- ===== src/Client/Candidates/Roles.antt =====
-- The roles of two peers, and the kind of the address translation.
use wzp.Common.{
  ℕ, ◌≡◌, ◌≤◌, ◌⊎◌, ◌≢◌, ◌↔◌, refl, sym, subst, inl, inr, true, not, ◌&&◌, List, [], ◌∷◌, Option,
  some, arith, length, All, Bool-cases, ◌==◌,
}
use wzp.Common.Keyed.{retain}
use wzp.Client.Stun.{SocketAddr}
use wzp.Client.Candidates.{
  acceptor, dialer, Ordering, less, equal, greater, cmp, role_of, determine_role, cone, ip_eq, port,
  every, classify_public, classify_nat, parse_observed, is_private_or_loopback, addr_eq,
}
use wzp.Client.Candidates.Dialing.{addr_eq_iff}

unfoldable pub opposite : Ordering → Ordering
opposite less = greater
opposite equal = equal
opposite greater = less

cmp-opposite : (a b : List ℕ) → cmp b a ≡ opposite (cmp a b)
unfolding cmp opposite
cmp-opposite [] [] = refl
cmp-opposite [] (y ∷ ys) = refl
cmp-opposite (x ∷ xs) [] = refl
cmp-opposite (x ∷ xs) (y ∷ ys) = ground (arith, cmp-opposite xs ys)

cmp-equal : (a b : List ℕ) → cmp a b ≡ equal → a ≡ b
unfolding cmp
cmp-equal [] [] h = refl
cmp-equal [] (y ∷ ys) h = ground (arith, h)
cmp-equal (x ∷ xs) [] h = ground (arith, h)
cmp-equal (x ∷ xs) (y ∷ ys) h = ground (arith, h, cmp-equal xs ys)

-- Two peers that know two different addresses of each other: one accepts and the other dials.
pub determine_role-opposite :
    (a b : List ℕ)
    → a ≢ b
    → ((determine_role (some a) (some b) ≡ some acceptor)
        × (determine_role (some b) (some a) ≡ some dialer))
      ⊎ ((determine_role (some a) (some b) ≡ some dialer)
          × (determine_role (some b) (some a) ≡ some acceptor))
unfolding determine_role role_of opposite
determine_role-opposite a b n = ground (arith, cmp-opposite a b, cmp-equal a b, n)

every-All :
    (f : SocketAddr) (xs : List SocketAddr)
    → ((every (λ a. ip_eq a f) xs && every (λ a. port a == port f) xs) ≡ true) ↔ All (λ a. a ≡ f) xs
unfolding every addr_eq
every-All f [] = (λ h. tt, λ h. refl)
every-All f (x ∷ xs) = (
  λ h. ((addr_eq_iff x f).0 (ground (arith, h)), (every-All f xs).0 (ground (arith, h))),
  λ h. ground (arith, (addr_eq_iff x f).1 h.0, (every-All f xs).1 h.1),
)

classify_cone :
    (xs : List SocketAddr) (a : SocketAddr)
    → (classify_public xs ≡ (cone, some a)) ↔ ((2 ≤ length xs) × All (λ b. b ≡ a) xs)
unfolding classify_public
classify_cone [] a = ground arith
classify_cone (x ∷ []) a = ground arith
classify_cone (x ∷ y ∷ ys) a = (
  λ h. elim (Bool-cases (every (λ b. ip_eq b x) (x ∷ y ∷ ys))) [
    | inl i ↦ elim (Bool-cases (every (λ b. port b == port x) (x ∷ y ∷ ys))) [
      | inl p ↦
          let same : x ≡ a = ground (arith, rw (i, p) at h) in
          (
            omega arith,
            subst (λ z. All (λ b. b ≡ z) (x ∷ y ∷ ys)) same
                ((every-All x (x ∷ y ∷ ys)).0 (rw (i, p) refl)),
          )
      | inr p ↦ absurd (ground (arith, rw (i, p) at h))
    ]
    | inr i ↦ absurd (ground (arith, rw i at h))
  ],
  λ h.
      let all =
        (every-All x (x ∷ y ∷ ys)).1 (subst (λ z. All (λ b. b ≡ z) (x ∷ y ∷ ys)) (sym h.1.0) h.1) in
      ground (arith, all, h.1.0),
)

-- A cone translation is found, with the address, exactly when two public addresses at least were
-- observed, and every public address that was observed is that one. Private addresses play no part.
pub classify_nat_cone :
    (parse : List ℕ → Option SocketAddr) (probes : List (Option (List ℕ))) (a : SocketAddr)
    → (let found = retain (λ b. not (is_private_or_loopback b)) (parse_observed parse probes) in
        (classify_nat parse probes ≡ (cone, some a))
        ↔ ((2 ≤ length found) × All (λ b. b ≡ a) found))
unfolding classify_nat
classify_nat_cone parse probes a =
    classify_cone (retain (λ b. not (is_private_or_loopback b)) (parse_observed parse probes)) a
