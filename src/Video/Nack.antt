-- ===== src/Video/Nack.antt =====
-- crates/wzp-video/src/nack.rs: the two ends of the retransmission of lost video packets. An instant
-- is the nanoseconds since some start, and `duration_since` stops at zero.
pub mod Ticks
pub mod Gaps
pub mod Trace
pub mod Sender
use wzp.Common.{
  ℕ, zero, suc, ◌+◌, ◌-◌, ◌*◌, ◌%◌, ◌≡◌, min, Bool, true, false, List, [], ◌∷◌, Option, none, some,
  arith, leb, ltb, ◌==◌, if◌then◌else◌, length, take,
}
use wzp.Common.Words.{add32, sub32}
use wzp.Common.SortedMaps.{lookup, insert, remove, or_insert}

abbrev pub second : ℕ
second = 1000000000

abbrev pub duration_max : ℕ
duration_max = 18446744073709551615 * second + 999999999

-- `Duration::saturating_mul`
abbrev pub saturating_mul : ℕ → ℕ → ℕ
saturating_mul d n = min (d * n) duration_max

-- The sender

pub record CachedPacket : Type 0 where
  pub seq : ℕ
  pub bytes : List ℕ
  pub timestamp_ms : ℕ

pub record NackSender : Type 0 where
  pub buffer : List (ℕ × CachedPacket)
  pub max_age : ℕ

abbrev pub default_max_age : ℕ
default_max_age = 500000000

abbrev pub new_sender : NackSender
new_sender = record { buffer = []; max_age = default_max_age }

unfoldable pub append_packet : List (ℕ × CachedPacket) → ℕ × CachedPacket → List (ℕ × CachedPacket)
append_packet [] e = e ∷ []
append_packet (b ∷ bs) e = b ∷ append_packet bs e

unfoldable pub on_send : NackSender → CachedPacket → ℕ → NackSender
on_send s packet now = record { buffer = append_packet s.buffer (now, packet); max_age = s.max_age }

unfoldable pub retain_young : ℕ → ℕ → List (ℕ × CachedPacket) → List (ℕ × CachedPacket)
retain_young now max_age [] = []
retain_young now max_age ((t, p) ∷ bs) =
    let rest = retain_young now max_age bs in if leb (now - t) max_age then (t, p) ∷ rest else rest

unfoldable pub evict : NackSender → ℕ → NackSender
evict s now = record { buffer = retain_young now s.max_age s.buffer; max_age = s.max_age }

-- `buffer.iter().find(|(_, p)| p.seq == *seq)`
unfoldable pub find_packet : ℕ → List (ℕ × CachedPacket) → Option CachedPacket
find_packet seq [] = none
find_packet seq ((t, p) ∷ bs) = if p.seq == seq then some p else find_packet seq bs

unfoldable pub find_all : List ℕ → List (ℕ × CachedPacket) → List CachedPacket
find_all [] bs = []
find_all (seq ∷ seqs) bs = elim (find_packet seq bs) [
  | none ↦ find_all seqs bs
  | some p ↦ p ∷ find_all seqs bs
]

unfoldable pub on_nack : NackSender → List ℕ → ℕ → List CachedPacket × NackSender
on_nack s seqs now = let s' = evict s now in (find_all seqs s'.buffer, s')

unfoldable pub sender_tick : NackSender → ℕ → NackSender
sender_tick s now = evict s now

-- The receiver

pub data NackAction : Type 0 where
  nack : List ℕ → NackAction
  picture_loss_indication : NackAction

pub record NackReceiver : Type 0 where
  pub frame_interval : ℕ
  pub rtt : ℕ
  pub missing : List (ℕ × ℕ)
  pub last_nack : List (ℕ × ℕ)
  pub next_expected : ℕ
  pub nacks_this_sec : ℕ
  pub sec_window : ℕ
  pub max_nack_rate : ℕ

-- `NackReceiver::new`, which reads the clock for the window.
unfoldable pub new_receiver : ℕ → ℕ → ℕ → NackReceiver
new_receiver frame_interval rtt now = record {
  frame_interval = frame_interval;
  rtt = rtt;
  missing = [];
  last_nack = [];
  next_expected = 0;
  nacks_this_sec = 0;
  sec_window = now;
  max_nack_rate = 50;
}

unfoldable pub set_rtt : NackReceiver → ℕ → NackReceiver
set_rtt s rtt = record s { rtt = rtt }

unfoldable pub advance_window : NackReceiver → ℕ → NackReceiver
advance_window s now =
    let over = leb second (now - s.sec_window) in
    record s {
      sec_window = if over then now else s.sec_window;
      nacks_this_sec = if over then 0 else s.nacks_this_sec;
    }

-- `for offset in 0..ahead`, with the rounds left and the offset of the next one.
unfoldable pub note_missing : ℕ → ℕ → ℕ → ℕ → List (ℕ × ℕ) → List (ℕ × ℕ)
note_missing zero offset next now m = m
note_missing (suc n) offset next now m =
    note_missing n (offset + 1) next now (or_insert (add32 next offset) now m)

abbrev pub forget : NackReceiver → ℕ → NackReceiver
forget s seq = record s { missing = remove seq s.missing; last_nack = remove seq s.last_nack }

unfoldable pub on_packet : NackReceiver → ℕ → ℕ → NackReceiver
unfolding advance_window
on_packet s₀ seq now =
    let s = advance_window s₀ now in
    let ahead = sub32 seq s.next_expected in
    if ahead == 0
    then forget (record s { next_expected = add32 s.next_expected 1 }) seq
    else (if ltb ahead 2147483647
        then forget
            (record s {
              missing = note_missing ahead 0 s.next_expected now s.missing;
              next_expected = add32 seq 1;
            })
            seq
        else forget s seq)

abbrev pub in_backoff : ℕ → ℕ → Option ℕ → Bool
in_backoff now backoff none = false
in_backoff now backoff (some t) = ltb (now - t) backoff

-- The loop of `tick` over the missing packets.
unfoldable pub due : ℕ → ℕ → ℕ → List (ℕ × ℕ) → List (ℕ × ℕ) → List ℕ
due now threshold backoff last [] = []
due now threshold backoff last ((seq, noticed_at) ∷ m) =
    let rest = due now threshold backoff last m in
    if ltb (now - noticed_at) threshold
    then rest
    else (if in_backoff now backoff (lookup seq last) then rest else seq ∷ rest)

unfoldable pub mark_nacked : List ℕ → ℕ → List (ℕ × ℕ) → List (ℕ × ℕ)
mark_nacked [] now last = last
mark_nacked (seq ∷ seqs) now last = mark_nacked seqs now (insert seq now last)

unfoldable pub send_nacks : NackReceiver → List ℕ → ℕ → List NackAction × NackReceiver
send_nacks s seqs now =
    let budget = s.max_nack_rate - s.nacks_this_sec in
    let batch = take budget seqs in
    let counted = record s {
      nacks_this_sec = s.nacks_this_sec + length batch;
      last_nack = mark_nacked batch now s.last_nack;
    } in
    if ltb s.rtt (saturating_mul s.frame_interval 2)
    then (if budget == 0 then (picture_loss_indication ∷ [], s) else (nack batch ∷ [], counted))
    else (picture_loss_indication ∷ [], s)

-- `tick` with the packets that are due.
unfoldable pub act : NackReceiver → List ℕ → ℕ → List NackAction × NackReceiver
unfolding send_nacks
act s [] now = ([], s)
act s (seq ∷ seqs) now = send_nacks s (seq ∷ seqs) now

unfoldable pub tick : NackReceiver → ℕ → List NackAction × NackReceiver
unfolding advance_window
tick s₀ now =
    let s = advance_window s₀ now in
    act s (due now s.frame_interval (saturating_mul s.rtt 2) s.last_nack s.missing) now
