-- ===== src/Video/Nack/Sender.antt =====
-- What the sender still has.
use wzp.Common.{
  ℕ, ◌-◌, ◌≡◌, ◌≢◌, refl, ◌∙◌, List, [], ◌∷◌, Option, none, some, arith, leb, if◌then◌else◌, All,
}
use wzp.Video.Nack.{
  CachedPacket, NackSender, append_packet, on_send, retain_young, evict, find_packet, find_all,
  on_nack,
}

abbrev pub sends : NackSender → List (ℕ × CachedPacket) → NackSender
sends s [] = s
sends s ((t, p) ∷ es) = sends (on_send s p t) es

abbrev pub SeqIsNot : ℕ → ℕ × CachedPacket → Type 0
SeqIsNot seq e = e.1.seq ≢ seq

-- What is found among the young packets, when at most one of them has the number.
abbrev kept : ℕ → ℕ → ℕ × CachedPacket → Option CachedPacket
kept now max_age e = if leb (now - e.0) max_age then some e.1 else none

find-retain_young :
    (seq now max_age : ℕ) (bs : List (ℕ × CachedPacket))
    → find_packet seq bs ≡ none
    → find_packet seq (retain_young now max_age bs) ≡ none
unfolding find_packet retain_young
find-retain_young seq now max_age [] h = refl
find-retain_young seq now max_age ((t, p) ∷ bs) h =
    ground (arith, h, find-retain_young seq now max_age bs)

-- The buffer holds the packet once, sent at an instant.
abbrev pub Holds : NackSender → CachedPacket → ℕ → Type 0
Holds s p t =
    (now max_age : ℕ)
    → find_packet p.seq (retain_young now max_age s.buffer) ≡ kept now max_age (t, p)

find-append_same :
    (bs : List (ℕ × CachedPacket)) (p : CachedPacket) (t now max_age : ℕ)
    → find_packet p.seq bs ≡ none
    → find_packet p.seq (retain_young now max_age (append_packet bs (t, p)))
      ≡ kept now max_age (t, p)
unfolding find_packet retain_young append_packet
find-append_same [] p t now max_age h = ground arith
find-append_same ((u, q) ∷ bs) p t now max_age h =
    ground (arith, h, find-append_same bs p t now max_age)

find-append_other :
    (bs : List (ℕ × CachedPacket)) (q : CachedPacket) (u seq now max_age : ℕ)
    → q.seq ≢ seq
    → find_packet seq (retain_young now max_age (append_packet bs (u, q)))
      ≡ find_packet seq (retain_young now max_age bs)
unfolding find_packet retain_young append_packet
find-append_other [] q u seq now max_age h = ground (arith, h)
find-append_other ((v, r) ∷ bs) q u seq now max_age h =
    ground (arith, h, find-append_other bs q u seq now max_age h)

sends-Holds :
    (s : NackSender) (p : CachedPacket) (t : ℕ) (es : List (ℕ × CachedPacket))
    → All (SeqIsNot p.seq) es
    → Holds s p t
    → (Holds (sends s es) p t) × ((sends s es).max_age ≡ s.max_age)
unfolding on_send
sends-Holds s p t [] a h = (h, refl)
sends-Holds s p t ((u, q) ∷ es) (n, a) h =
    sends-Holds (on_send s q u) p t es a
      (λ now max_age. find-append_other s.buffer q u p.seq now max_age n ∙ h now max_age)

-- A packet that was sent is sent again on request as long as it is no older than the limit, and never
-- after that, whatever else was sent behind it under other numbers.
pub on_nack-sends :
    (s : NackSender) (p : CachedPacket) (t now : ℕ) (es : List (ℕ × CachedPacket))
    → find_packet p.seq s.buffer ≡ none
    → All (SeqIsNot p.seq) es
    → (on_nack (sends (on_send s p t) es) (p.seq ∷ []) now).0
      ≡ (if leb (now - t) s.max_age then p ∷ [] else [])
unfolding on_nack evict find_all on_send
on_nack-sends s p t now es f a =
    let (h, m) =
      sends-Holds (on_send s p t) p t es a (λ n k. find-append_same s.buffer p t n k f) in
    ground (arith, h now (sends (on_send s p t) es).max_age, m)
