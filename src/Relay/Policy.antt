-- ===== src/Relay/Policy.antt =====
-- crates/wzp-relay/src/response_policy.rs and verdict.rs: what the relay does about abuse. An instant is
-- the nanoseconds since some start; `duration_since` stops at zero.
pub mod Escalation
use Prim.Native.String.{String}
use wzp.Common.{
  ℕ, ◌-◌, ◌*◌, Bool, true, false, ◌&&◌, ◌||◌, List, [], ◌∷◌, Option, none, some, arith, ltb, ◌==◌,
  if◌then◌else◌,
}
use wzp.Common.Maps.{str_eq}

pub data Verdict : Type 0 where
  legitimate suspect abusive : Verdict

pub data ViolationCode : Type 0 where
  bitrate packet_rate timestamp_drift payload_size rate_cap entropy : ViolationCode

abbrev pub code_index : ViolationCode → ℕ
code_index bitrate = 0
code_index packet_rate = 1
code_index timestamp_drift = 2
code_index payload_size = 3
code_index rate_cap = 4
code_index entropy = 5

abbrev pub code_eq : ViolationCode → ViolationCode → Bool
code_eq a b = code_index a == code_index b

pub data HangupReason : Type 0 where
  normal busy declined timeout error : HangupReason
  protocol_version_mismatch : List ℕ → HangupReason
  policy_violation : ViolationCode → String → HangupReason

pub data Action : Type 0 where
  allow throttle block : Action
  close : HangupReason → Action

-- `format!("Tier G enforcement: {code:?}")`
abbrev pub enforcement : ViolationCode → String
enforcement bitrate = "Tier G enforcement: Bitrate"
enforcement packet_rate = "Tier G enforcement: PacketRate"
enforcement timestamp_drift = "Tier G enforcement: TimestampDrift"
enforcement payload_size = "Tier G enforcement: PayloadSize"
enforcement rate_cap = "Tier G enforcement: RateCap"
enforcement entropy = "Tier G enforcement: Entropy"

pub record ResponsePolicy : Type 0 where
  pub cooldowns : String → ViolationCode → Option ℕ
  pub block_duration : ℕ

unfoldable pub new_policy : ResponsePolicy
new_policy = record { cooldowns = λ f c. none; block_duration = 86400 * 1000000000 }

-- `now.duration_since(*last) < self.block_duration`
abbrev pub is_recent : ResponsePolicy → ℕ → Option ℕ → Bool
is_recent s now none = false
is_recent s now (some last) = ltb (now - last) s.block_duration

unfoldable pub record_abuse : ResponsePolicy → String → ViolationCode → ℕ → ResponsePolicy
record_abuse s fp code now = record s {
  cooldowns = λ f c. if str_eq f fp && code_eq c code then some now else s.cooldowns f c;
}

unfoldable pub evaluate :
    ResponsePolicy → String → ViolationCode → Verdict → ℕ → Action × ResponsePolicy
evaluate s fp code legitimate now = (allow, s)
evaluate s fp code suspect now = (throttle, s)
evaluate s fp code abusive now =
    if is_recent s now (s.cooldowns fp code)
    then (block, s)
    else (close (policy_violation code (enforcement code)), record_abuse s fp code now)

unfoldable pub is_blocked : ResponsePolicy → String → ℕ → Bool
is_blocked s fp now =
    is_recent s now (s.cooldowns fp bitrate)
    || (is_recent s now (s.cooldowns fp packet_rate)
        || (is_recent s now (s.cooldowns fp timestamp_drift)
            || (is_recent s now (s.cooldowns fp payload_size)
                || (is_recent s now (s.cooldowns fp rate_cap)
                    || is_recent s now (s.cooldowns fp entropy)))))

unfoldable pub prune : ResponsePolicy → ℕ → ResponsePolicy
prune s now = record s {
  cooldowns = λ f c. if is_recent s now (s.cooldowns f c) then s.cooldowns f c else none;
}
