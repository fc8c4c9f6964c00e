-- ===== src/Crypto/Rekey.antt =====
-- crates/wzp-crypto/src/rekey.rs: when to rekey, and how the key moves on. The key agreement and
-- the key derivation are those of other crates: parameters.
use wzp.Common.{ℕ, ◌-◌, Bool, leb}

-- X25519 and HKDF-SHA256 as the code calls them, and the truncated SHA-256 that names a session.
pub record KeySchedule (Ident : Type 0) : Type 1 where
  pub Key : Type 0
  pub Secret : Type 0
  pub Public : Type 0
  pub public_of : Secret → Public
  pub derive : Key → Secret → Public → Key
  pub id_of : Key → Ident

abbrev pub rekey_interval : ℕ
rekey_interval = 65536

pub record RekeyManager (Key : Type 0) : Type 0 where
  pub current_key : Key
  pub last_rekey_at : ℕ

module _ {Key : Type 0} where
  unfoldable pub new_manager : Key → RekeyManager Key
  new_manager k = record { current_key = k; last_rekey_at = 0 }

  unfoldable pub should_rekey : RekeyManager Key → ℕ → Bool
  should_rekey m packet_count = leb rekey_interval (packet_count - m.last_rekey_at)

  -- `derive` stands for the agreement and the derivation under the old key.
  unfoldable pub perform_rekey : (Key → Key) → RekeyManager Key → ℕ → Key × RekeyManager Key
  perform_rekey derive m packet_count =
      let new_key = derive m.current_key in
      (new_key, record { current_key = new_key; last_rekey_at = packet_count })
