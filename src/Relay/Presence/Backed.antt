-- ===== src/Relay/Presence/Backed.antt =====
-- Where a fingerprint is said to be, and what stands behind it.
use Prim.Native.String.{String}
use wzp.Common.{
  ℕ, ◌≡◌, List, [], ◌∷◌, Option, none, some, true, inl, inr, arith, if◌then◌else◌, Bool-cases, ltb,
  leb, ◌<◌, ltb→lt,
}
use wzp.Common.Maps.{among}
use wzp.Relay.Presence.{
  local_here, remote_at, RemotePresence, PeerRelay, PresenceRegistry, new_presence, register_local,
  unregister_local, without_peer, reported, update_peer, is_entry, locate_remote, locate,
  seen_after, updated_after, expire_presence,
}

-- What the relay does with its registry, with the time at which each reads the clock.
pub data Op : Type 0 where
  joins : String → Option String → Option String → ℕ → Op
  leaves : String → Op
  hears : ℕ → List String → ℕ → Op
  expires : ℕ → Op

unfoldable pub apply : PresenceRegistry → Op → PresenceRegistry
apply r (joins fp alias room now) = register_local r fp alias room now
apply r (leaves fp) = unregister_local r fp
apply r (hears addr fps now) = update_peer r addr fps now
apply r (expires cutoff) = expire_presence r cutoff

unfoldable pub apply_all : PresenceRegistry → List Op → PresenceRegistry
apply_all r [] = r
apply_all r (o ∷ os) = apply_all (apply r o) os

-- The record of a peer that reports the fingerprint, as of the given time.
abbrev pub Reports : String → ℕ → Option PeerRelay → Type 0
Reports f t none = ⊥
Reports f t (some p) = (among f p.fingerprints ≡ true) × (p.last_update ≡ t)

abbrev pub BackedBy : PresenceRegistry → String → Option RemotePresence → Type 0
BackedBy r f none = Unit
BackedBy r f (some rp) = (rp.fingerprint ≡ f) × Reports f rp.last_seen (r.peers rp.relay_addr)

-- Every remote entry is in the last report of the peer that it names.
abbrev pub IsBacked : PresenceRegistry → Type 0
IsBacked r = (f : String) → BackedBy r f (r.remote f)

hears-IsBacked :
    (r : PresenceRegistry) (addr : ℕ) (fps : List String) (now : ℕ)
    → IsBacked r
    → IsBacked (update_peer r addr fps now)
unfolding update_peer
hears-IsBacked r addr fps now h f = kept (r.remote f) (h f)
  where
    kept :
        (o : Option RemotePresence)
        → BackedBy r f o
        → BackedBy
            (update_peer r addr fps now)
            f
            (if among f fps then some (reported addr now f) else without_peer addr o)
    kept none g = ground arith
    kept (some rp) g = ground arith

-- A report behind the cutoff stays.
Reports-kept :
    (f : String) (t cutoff : ℕ) (o : Option PeerRelay)
    → cutoff < t
    → Reports f t o
    → Reports f t (updated_after cutoff o)
Reports-kept f t cutoff none h g = g
Reports-kept f t cutoff (some p) h g = elim (Bool-cases (leb p.last_update cutoff)) [
  | inl e ↦ absurd (ground (arith, g))
  | inr e ↦ rw e g
]

expires-IsBacked :
    (r : PresenceRegistry) (cutoff : ℕ) → IsBacked r → IsBacked (expire_presence r cutoff)
unfolding expire_presence
expires-IsBacked r cutoff h f = kept (r.remote f) (h f)
  where
    kept :
        (o : Option RemotePresence)
        → BackedBy r f o
        → BackedBy (expire_presence r cutoff) f (seen_after cutoff o)
    kept none g = tt
    kept (some rp) g = elim (Bool-cases (ltb cutoff rp.last_seen)) [
      | inl e ↦ rw e (
        g.0,
        Reports-kept f rp.last_seen cutoff (r.peers rp.relay_addr) (ltb→lt cutoff rp.last_seen e)
            g.1,
      )
      | inr e ↦ rw e tt
    ]

apply-IsBacked : (r : PresenceRegistry) (o : Op) → IsBacked r → IsBacked (apply r o)
unfolding apply register_local unregister_local
apply-IsBacked r (joins fp alias room now) h = h
apply-IsBacked r (leaves fp) h = h
apply-IsBacked r (hears addr fps now) h = hears-IsBacked r addr fps now h
apply-IsBacked r (expires cutoff) h = expires-IsBacked r cutoff h

apply_all-IsBacked : (r : PresenceRegistry) (os : List Op) → IsBacked r → IsBacked (apply_all r os)
unfolding apply_all
apply_all-IsBacked r [] h = h
apply_all-IsBacked r (o ∷ os) h = apply_all-IsBacked (apply r o) os (apply-IsBacked r o h)

-- After any operations on a new registry, in any order of the clock, each remote entry stands under
-- its own fingerprint, and the peer that it names is known, lists that fingerprint in its last
-- report, and sent the report when the entry was last seen.
pub apply_all_new-IsBacked : (os : List Op) → IsBacked (apply_all new_presence os)
unfolding new_presence
apply_all_new-IsBacked os = apply_all-IsBacked new_presence os (λ f. tt)

-- A report of a peer puts the fingerprints that it lists at that peer and forgets the others that
-- were there, leaves the rest where they were, and never moves a fingerprint that is local.
pub locate-update_peer :
    (r : PresenceRegistry) (addr : ℕ) (fps : List String) (now : ℕ) (f : String)
    → locate (update_peer r addr fps now) f ≡ (
        if is_entry (r.local f)
        then some local_here
        else (if among f fps
            then some (remote_at addr)
            else locate_remote (without_peer addr (r.remote f))))
unfolding locate update_peer
locate-update_peer r addr fps now f = ground arith
