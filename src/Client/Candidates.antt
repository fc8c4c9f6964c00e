-- ===== src/Client/Candidates.antt =====
-- crates/wzp-client/src/reflect.rs, dual_path.rs and ice_agent.rs: the roles of two peers, the kind of
-- the address translation, the candidates of a peer in the order of dialling, and the updates of the
-- candidates during a call. A text is the list of its bytes; the parsing and the printing of an
-- address, which the standard library does, are parameters. The addresses that the discovery finds are
-- arguments. An IPv6 address keeps its bytes and its port.
pub mod Dialing
pub mod Roles
pub mod Updates
mod Tests
use wzp.Common.{
  ℕ, zero, suc, ◌+◌, ◌*◌, ◌%◌, max, bit_and, Bool, true, false, not, ◌&&◌, ◌||◌, List, [], ◌∷◌,
  ◌++◌, map, Option, none, some, leb, ltb, ◌==◌, if◌then◌else◌, length, get_or,
}
use wzp.Common.Keyed.{retain}
use wzp.Common.Words.{u32_mod}
use wzp.Client.Stun.{SocketAddr, v4, v6}

-- `==` of two byte strings.
unfoldable pub bytes_eq : List ℕ → List ℕ → Bool
bytes_eq [] [] = true
bytes_eq [] (b ∷ bs) = false
bytes_eq (a ∷ as_) [] = false
bytes_eq (a ∷ as_) (b ∷ bs) = (a == b) && bytes_eq as_ bs

-- `a.ip() == b.ip()`
unfoldable pub ip_eq : SocketAddr → SocketAddr → Bool
ip_eq (v4 a p) (v4 b q) = bytes_eq a b
ip_eq (v6 a p) (v6 b q) = bytes_eq a b
ip_eq (v4 a p) (v6 b q) = false
ip_eq (v6 a p) (v4 b q) = false

unfoldable pub port : SocketAddr → ℕ
port (v4 a p) = p
port (v6 a p) = p

unfoldable pub addr_eq : SocketAddr → SocketAddr → Bool
addr_eq a b = ip_eq a b && (port a == port b)

unfoldable pub is_ipv6 : SocketAddr → Bool
is_ipv6 (v4 a p) = false
is_ipv6 (v6 a p) = true

-- `out.contains(&a)`
unfoldable pub contains_addr : SocketAddr → List SocketAddr → Bool
contains_addr a [] = false
contains_addr a (b ∷ bs) = addr_eq b a || contains_addr a bs

-- `==` of an address that may be missing.
unfoldable pub is_addr : Option SocketAddr → SocketAddr → Bool
is_addr none a = false
is_addr (some b) a = addr_eq b a

pub record PeerCandidates : Type 0 where
  pub reflexive : Option SocketAddr
  pub local : List SocketAddr
  pub mapped : Option SocketAddr

-- `if let Some(a) = .. { if !out.contains(&a) { out.push(a) } }`
unfoldable pub push_new : Option SocketAddr → List SocketAddr → List SocketAddr
push_new none out = out
push_new (some a) out = if contains_addr a out then out else out ++ (a ∷ [])

unfoldable pub dial_order : PeerCandidates → List SocketAddr
dial_order c = push_new c.reflexive (push_new c.mapped c.local)

unfoldable pub same_network : Option SocketAddr → Option SocketAddr → Bool
same_network (some own) (some peer) = ip_eq own peer
same_network (some own) none = false
same_network none peer = false

-- The same, unless the address is IPv6.
unfoldable pub push_ipv4 : Option SocketAddr → List SocketAddr → List SocketAddr
push_ipv4 none out = out
push_ipv4 (some a) out =
    if not (is_ipv6 a) && not (contains_addr a out) then out ++ (a ∷ []) else out

unfoldable pub smart_dial_order : PeerCandidates → Option SocketAddr → List SocketAddr
smart_dial_order c own_reflexive =
    let near =
      if same_network own_reflexive c.reflexive
      then retain (λ a. not (is_ipv6 a)) c.local
      else [] in
    push_ipv4 c.reflexive (push_ipv4 c.mapped near)

unfoldable pub is_none : Option SocketAddr → Bool
is_none none = true
is_none (some a) = false

unfoldable pub is_empty : PeerCandidates → Bool
is_empty c = is_none c.reflexive && ((length c.local == 0) && is_none c.mapped)

pub data Role : Type 0 where
  acceptor dialer : Role

pub data Ordering : Type 0 where
  less equal greater : Ordering

-- `str::cmp`, which compares the bytes.
unfoldable pub cmp : List ℕ → List ℕ → Ordering
cmp [] [] = equal
cmp [] (b ∷ bs) = less
cmp (a ∷ as_) [] = greater
cmp (a ∷ as_) (b ∷ bs) =
    let rest = cmp as_ bs in if ltb a b then less else if ltb b a then greater else rest

unfoldable pub role_of : Ordering → Option Role
role_of less = some acceptor
role_of greater = some dialer
role_of equal = none

unfoldable pub determine_role : Option (List ℕ) → Option (List ℕ) → Option Role
determine_role (some own) (some peer) = role_of (cmp own peer)
determine_role (some own) none = none
determine_role none peer = none

unfoldable pub is_private_v4 : ℕ → ℕ → Bool
is_private_v4 o0 o1 =
    (o0 == 127)
    || ((o0 == 10)
        || (((o0 == 172) && (leb 16 o1 && leb o1 31))
            || (((o0 == 192) && (o1 == 168))
                || (((o0 == 169) && (o1 == 254)) || ((o0 == 100) && (bit_and o1 0xc0 == 0x40))))))

-- The loopback address, the unspecified one and fe80::/10.
unfoldable pub is_private_v6 : List ℕ → Bool
is_private_v6 b =
    bytes_eq b (0 ∷ 0 ∷ 0 ∷ 0 ∷ 0 ∷ 0 ∷ 0 ∷ 0 ∷ 0 ∷ 0 ∷ 0 ∷ 0 ∷ 0 ∷ 0 ∷ 0 ∷ 1 ∷ [])
    || (bytes_eq b (0 ∷ 0 ∷ 0 ∷ 0 ∷ 0 ∷ 0 ∷ 0 ∷ 0 ∷ 0 ∷ 0 ∷ 0 ∷ 0 ∷ 0 ∷ 0 ∷ 0 ∷ 0 ∷ [])
        || (bit_and (get_or b 0 0 * 256 + get_or b 1 0) 0xffc0 == 0xfe80))

unfoldable pub is_private_or_loopback : SocketAddr → Bool
is_private_or_loopback (v4 o p) = is_private_v4 (get_or o 0 0) (get_or o 1 0)
is_private_or_loopback (v6 b p) = is_private_v6 b

pub data NatType : Type 0 where
  cone symmetric_port multiple unknown : NatType

unfoldable pub every : (SocketAddr → Bool) → List SocketAddr → Bool
every p [] = true
every p (a ∷ bs) = p a && every p bs

-- The classification of the addresses that are left; the consensus is printed by the source.
unfoldable pub classify_public : List SocketAddr → NatType × Option SocketAddr
classify_public [] = (unknown, none)
classify_public (a ∷ []) = (unknown, none)
classify_public (first ∷ b ∷ bs) =
    let all = first ∷ b ∷ bs in
    if not (every (λ a. ip_eq a first) all)
    then (multiple, none)
    else if every (λ a. port a == port first) all
    then (cone, some first)
    else (symmetric_port, none)

unfoldable pub push_parsed : Option SocketAddr → List SocketAddr → List SocketAddr
push_parsed none rest = rest
push_parsed (some a) rest = a ∷ rest

pub record CandidateSet : Type 0 where
  pub reflexive : Option SocketAddr
  pub local : List SocketAddr
  pub mapped : Option SocketAddr
  pub generation : ℕ

-- The fields of `SignalMessage::CandidateUpdate`; every other message is `other`.
pub record CandidateUpdate : Type 0 where
  pub call_id : List ℕ
  pub reflexive_addr : Option (List ℕ)
  pub local_addrs : List (List ℕ)
  pub mapped_addr : Option (List ℕ)
  pub generation : ℕ

pub data SignalMessage : Type 0 where
  candidate_update : CandidateUpdate → SignalMessage
  other : SignalMessage

pub record IceAgent : Type 0 where
  pub generation : ℕ
  pub call_id : List ℕ
  pub peer_generation : ℕ

unfoldable pub new_agent : List ℕ → IceAgent
new_agent call_id = record { generation = 0; call_id = call_id; peer_generation = 0 }

-- `gather`, with what the discovery finds; the generation wraps.
unfoldable pub gather :
    IceAgent → Option SocketAddr → List SocketAddr → Option SocketAddr → CandidateSet × IceAgent
gather agent reflexive local mapped = (
  record { reflexive = reflexive; local = local; mapped = mapped; generation = agent.generation },
  record agent { generation = (agent.generation + 1) % u32_mod },
)

unfoldable pub print_optional : (SocketAddr → List ℕ) → Option SocketAddr → Option (List ℕ)
print_optional print none = none
print_optional print (some a) = some (print a)

unfoldable pub re_gather :
    (SocketAddr → List ℕ)
    → IceAgent
    → Option SocketAddr
    → List SocketAddr
    → Option SocketAddr
    → CandidateSet × SignalMessage × IceAgent
re_gather print agent reflexive local mapped =
    let gathered = gather agent reflexive local mapped in
    let candidates = gathered.0 in
    (
      candidates,
      candidate_update (record {
        call_id = agent.call_id;
        reflexive_addr = print_optional print candidates.reflexive;
        local_addrs = map print candidates.local;
        mapped_addr = print_optional print candidates.mapped;
        generation = candidates.generation;
      }),
      gathered.1,
    )

module _ (parse : List ℕ → Option SocketAddr) where
  -- `as_deref().and_then(|s| s.parse().ok())`
  unfoldable pub parse_optional : Option (List ℕ) → Option SocketAddr
  parse_optional none = none
  parse_optional (some s) = parse s

  -- `filter_map(|s| s.parse().ok())`
  unfoldable pub parse_all : List (List ℕ) → List SocketAddr
  parse_all [] = []
  parse_all (s ∷ ss) = push_parsed (parse s) (parse_all ss)

  unfoldable pub parse_observed : List (Option (List ℕ)) → List SocketAddr
  parse_observed [] = []
  parse_observed (o ∷ os) = push_parsed (parse_optional o) (parse_observed os)

  -- `classify_nat`, of the observed addresses of the probes.
  unfoldable pub classify_nat : List (Option (List ℕ)) → NatType × Option SocketAddr
  classify_nat probes =
      classify_public (retain (λ a. not (is_private_or_loopback a)) (parse_observed probes))

  unfoldable pub apply_peer_update : IceAgent → SignalMessage → Option PeerCandidates × IceAgent
  apply_peer_update agent other = (none, agent)
  apply_peer_update agent (candidate_update u) =
      let newer = record agent { peer_generation = max agent.peer_generation u.generation } in
      if leb u.generation agent.peer_generation then (none, newer) else (
        some (record {
          reflexive = parse_optional u.reflexive_addr;
          local = parse_all u.local_addrs;
          mapped = parse_optional u.mapped_addr;
        }),
        newer,
      )
