-- ===== src/Client/Candidates/Updates.antt =====
-- The updates of the candidates between two peers.
use wzp.Common.{
  ℕ, ◌<◌, ◌≤◌, max, inl, inr, List, [], ◌∷◌, Option, none, some, arith, leb, Bool-cases,
}
use wzp.Client.Stun.{SocketAddr}
use wzp.Client.Candidates.{
  PeerCandidates, SignalMessage, candidate_update, other, IceAgent, apply_peer_update,
}

-- The generations of the messages that an agent accepts, and the agent at the end.
module _ (parse : List ℕ → Option SocketAddr) where
  unfoldable pub note : SignalMessage → Option PeerCandidates → List ℕ → List ℕ
  note (candidate_update u) (some c) rest = u.generation ∷ rest
  note (candidate_update u) none rest = rest
  note other c rest = rest

  unfoldable pub accepted : IceAgent → List SignalMessage → List ℕ
  accepted agent [] = []
  accepted agent (m ∷ ms) =
      let applied = apply_peer_update parse agent m in note m applied.0 (accepted applied.1 ms)

-- Each is above the ones before it, and the first above the bound.
unfoldable pub Rising : ℕ → List ℕ → Type 0
Rising bound [] = Unit
Rising bound (g ∷ gs) = (bound < g) × Rising g gs

Rising-below : (a b : ℕ) (gs : List ℕ) → a ≤ b → Rising b gs → Rising a gs
unfolding Rising
Rising-below a b [] l h = tt
Rising-below a b (g ∷ gs) l h = (ground (arith, l, h.0), h.1)

module _ (parse : List ℕ → Option SocketAddr) where
  -- Whatever messages arrive, and in whatever order: the generations that are accepted rise, from
  -- above the one that the agent had seen.
  pub accepted-Rising :
      (agent : IceAgent) (ms : List SignalMessage)
      → Rising agent.peer_generation (accepted parse agent ms)
  unfolding accepted apply_peer_update note Rising
  accepted-Rising agent [] = tt
  accepted-Rising agent (other ∷ ms) = accepted-Rising agent ms
  accepted-Rising agent (candidate_update u ∷ ms) =
      let newer = record agent { peer_generation = max agent.peer_generation u.generation } in
      let rest = accepted-Rising newer ms in
      elim (Bool-cases (leb u.generation agent.peer_generation)) [
        | inl e ↦ rw e (Rising-below _ _ _ (ground arith) rest)
        | inr e ↦ rw e (ground (arith, e), Rising-below _ _ _ (ground arith) rest)
      ]
