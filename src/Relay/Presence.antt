-- ===== src/Relay/Presence.antt =====
-- crates/wzp-relay/src/presence.rs and route.rs: who is connected where. A hash map is a function to
-- options, a set of fingerprints the list of its members, an address a number. The round-trip time
-- of a peer, which the registry never sets, is left out. `cutoff` is the present less the timeout.
pub mod Backed
mod Tests
use Prim.Native.String.{String}
use wzp.Common.{
  ℕ, Bool, true, false, not, ◌&&◌, List, [], Option, none, some, leb, ltb, ◌==◌, if◌then◌else◌,
}
use wzp.Common.Maps.{str_eq, among}

pub data PresenceLocation : Type 0 where
  local_here : PresenceLocation
  remote_at : ℕ → PresenceLocation

pub record LocalPresence : Type 0 where
  pub fingerprint : String
  pub alias : Option String
  pub connected_at : ℕ
  pub room : Option String

pub record RemotePresence : Type 0 where
  pub fingerprint : String
  pub relay_addr : ℕ
  pub last_seen : ℕ

pub record PeerRelay : Type 0 where
  pub addr : ℕ
  pub fingerprints : List String
  pub last_update : ℕ

pub record PresenceRegistry : Type 0 where
  pub local : String → Option LocalPresence
  pub remote : String → Option RemotePresence
  pub peers : ℕ → Option PeerRelay

unfoldable pub new_presence : PresenceRegistry
new_presence = record { local = λ f. none; remote = λ f. none; peers = λ a. none }

unfoldable pub register_local :
    PresenceRegistry → String → Option String → Option String → ℕ → PresenceRegistry
register_local r fp alias room now = record r {
  local = λ f.
      if str_eq f fp
      then some (record { fingerprint = fp; alias = alias; connected_at = now; room = room })
      else r.local f;
}

unfoldable pub unregister_local : PresenceRegistry → String → PresenceRegistry
unregister_local r fp = record r { local = λ f. if str_eq f fp then none else r.local f }

-- `retain` of the entries that are not of the peer.
abbrev pub without_peer : ℕ → Option RemotePresence → Option RemotePresence
without_peer addr none = none
without_peer addr (some rp) = if rp.relay_addr == addr then none else some rp

abbrev pub reported : ℕ → ℕ → String → RemotePresence
reported addr now f = record { fingerprint = f; relay_addr = addr; last_seen = now }

-- The record of the peer is made if it is missing; its set and its time are replaced.
unfoldable pub update_peer : PresenceRegistry → ℕ → List String → ℕ → PresenceRegistry
update_peer r addr fps now = record r {
  remote = λ f. if among f fps then some (reported addr now f) else without_peer addr (r.remote f);
  peers = λ a.
      if a == addr
      then some (record { addr = addr; fingerprints = fps; last_update = now })
      else r.peers a;
}

abbrev pub is_entry {ℓ} : {A : Type ℓ} → Option A → Bool
is_entry none = false
is_entry (some x) = true

abbrev pub locate_remote : Option RemotePresence → Option PresenceLocation
locate_remote none = none
locate_remote (some rp) = some (remote_at rp.relay_addr)

-- `lookup`
unfoldable pub locate : PresenceRegistry → String → Option PresenceLocation
locate r fp = if is_entry (r.local fp) then some local_here else locate_remote (r.remote fp)

abbrev pub seen_after : ℕ → Option RemotePresence → Option RemotePresence
seen_after cutoff none = none
seen_after cutoff (some rp) = if ltb cutoff rp.last_seen then some rp else none

abbrev pub updated_after : ℕ → Option PeerRelay → Option PeerRelay
updated_after cutoff none = none
updated_after cutoff (some p) = if leb p.last_update cutoff then none else some p

unfoldable pub expire_presence : PresenceRegistry → ℕ → PresenceRegistry
expire_presence r cutoff = record r {
  remote = λ f. seen_after cutoff (r.remote f);
  peers = λ a. updated_after cutoff (r.peers a);
}

pub data Route : Type 0 where
  local_route : Route
  direct_peer : ℕ → Route
  chain : List ℕ → Route
  not_found : Route

abbrev route_of : Option PresenceLocation → Route
route_of (some local_here) = local_route
route_of (some (remote_at a)) = direct_peer a
route_of none = not_found

unfoldable pub resolve : PresenceRegistry → String → Route
resolve r fp = route_of (locate r fp)

-- A single hop: the bound on the hops is not used.
unfoldable pub resolve_multi_hop : PresenceRegistry → String → ℕ → Route
resolve_multi_hop r fp max_hops = resolve r fp
