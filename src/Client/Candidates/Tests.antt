-- ===== src/Client/Candidates/Tests.antt =====
-- The candidates of two peers at concrete values.
use wzp.Common.{
  ℕ, zero, suc, ◌≡◌, ◌↔◌, ◌≤◌, refl, true, false, ◌&&◌, ◌||◌, not, List, [], ◌∷◌, Option, none,
  some, arith, length, All,
}
use wzp.Common.Keyed.{retain}
use wzp.Client.Stun.{SocketAddr, v4, v6}
use wzp.Client.Candidates.{
  PeerCandidates, contains_addr, is_addr, is_ipv6, dial_order, push_new, push_ipv4, same_network,
  smart_dial_order, is_none, is_empty, addr_eq, ip_eq, port, bytes_eq, acceptor, cmp, role_of,
  determine_role, cone, is_private_v4, is_private_or_loopback, push_parsed, parse_optional,
  parse_observed, classify_nat, IceAgent, new_agent, gather, re_gather, apply_peer_update,
}
use wzp.Client.Candidates.Dialing.{smart_dial_order-dials}
use wzp.Client.Candidates.Roles.{classify_nat_cone}

-- An address is printed as a number for its version, its port and its bytes.
abbrev print : SocketAddr → List ℕ
print (v4 bytes p) = 0 ∷ p ∷ bytes
print (v6 bytes p) = 1 ∷ p ∷ bytes

abbrev parse : List ℕ → Option SocketAddr
parse (zero ∷ p ∷ bytes) = some (v4 bytes p)
parse (suc n ∷ p ∷ bytes) = some (v6 bytes p)
parse s = none

abbrev public_addr : SocketAddr
public_addr = v4 (203 ∷ 0 ∷ 113 ∷ 9 ∷ []) 40000

abbrev lan_addr : SocketAddr
lan_addr = v4 (192 ∷ 168 ∷ 1 ∷ 7 ∷ []) 5000

abbrev global_v6 : SocketAddr
global_v6 = v6 (32 ∷ 1 ∷ 13 ∷ 184 ∷ 0 ∷ 0 ∷ 0 ∷ 0 ∷ 0 ∷ 0 ∷ 0 ∷ 0 ∷ 0 ∷ 0 ∷ 0 ∷ 1 ∷ []) 5000

abbrev candidates : PeerCandidates
candidates = record {
  reflexive = some public_addr;
  local = lan_addr ∷ global_v6 ∷ [];
  mapped = some public_addr;
}

near_order : smart_dial_order candidates (some public_addr) ≡ lan_addr ∷ public_addr ∷ []
unfolding smart_dial_order push_ipv4 same_network contains_addr addr_eq ip_eq port bytes_eq is_ipv6
    retain
near_order = refl

far_order : smart_dial_order candidates none ≡ public_addr ∷ []
unfolding smart_dial_order push_ipv4 same_network contains_addr addr_eq ip_eq port bytes_eq is_ipv6
far_order = refl

full_order : dial_order candidates ≡ lan_addr ∷ global_v6 ∷ public_addr ∷ []
unfolding dial_order push_new contains_addr addr_eq ip_eq port bytes_eq
full_order = refl

candidates_present : is_empty candidates ≡ false
unfolding is_empty is_none
candidates_present = refl

smart_dial_order-dials_example :
    (contains_addr lan_addr (dial_order candidates) ≡ (
      contains_addr lan_addr candidates.local
      || (is_addr candidates.mapped lan_addr || is_addr candidates.reflexive lan_addr)))
    × (contains_addr lan_addr (smart_dial_order candidates none) ≡ (
        true
        && ((same_network none candidates.reflexive && contains_addr lan_addr candidates.local)
            || (is_addr candidates.mapped lan_addr || is_addr candidates.reflexive lan_addr))))
unfolding is_ipv6
smart_dial_order-dials_example = smart_dial_order-dials candidates none lan_addr

shorter_accepts : determine_role (some (1 ∷ 2 ∷ [])) (some (1 ∷ 2 ∷ 0 ∷ [])) ≡ some acceptor
unfolding determine_role cmp role_of
shorter_accepts = refl

-- Two relays on the internet and one on the same network.
abbrev probes : List (Option (List ℕ))
probes = some (print public_addr) ∷ some (print lan_addr) ∷ none ∷ some (print public_addr) ∷ []

found_public :
    retain (λ b. not (is_private_or_loopback b)) (parse_observed parse probes)
    ≡ public_addr ∷ public_addr ∷ []
unfolding retain parse_observed parse_optional push_parsed is_private_or_loopback is_private_v4
found_public = refl

cone_probes : (classify_nat parse probes ≡ (cone, some public_addr)) ↔ (
    (2 ≤ length (retain (λ b. not (is_private_or_loopback b)) (parse_observed parse probes)))
    × All
        (λ b. b ≡ public_addr)
        (retain (λ b. not (is_private_or_loopback b)) (parse_observed parse probes)))
cone_probes = classify_nat_cone parse probes public_addr

cone_found : classify_nat parse probes ≡ (cone, some public_addr)
cone_found = cone_probes.1 (rw found_public (omega arith, (refl, (refl, tt))))

-- An agent that has gathered once.
abbrev agent : IceAgent
agent = record { generation = 1; call_id = 7 ∷ []; peer_generation = 0 }

gather_once : (gather (new_agent (7 ∷ [])) none [] none).1 ≡ agent
unfolding gather new_agent
gather_once = refl

-- The update of an agent that has not gathered before is refused, although it is the first.
first_refused :
    (apply_peer_update parse
      (new_agent (7 ∷ []))
      (re_gather print (new_agent (7 ∷ [])) (some public_addr) [] none).1).0
    ≡ none
unfolding apply_peer_update re_gather gather new_agent
first_refused = refl
