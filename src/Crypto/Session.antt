-- ===== src/Crypto/Session.antt =====
-- crates/wzp-crypto/src/session.rs: the encrypted session of a call. The cipher is a parameter, and
-- `out` is what the caller's vector holds after the call. `debug_assert!` is that of a release build.
pub mod Laws
use wzp.Common.{
  ℕ, ◌+◌, ◌-◌, ◌%◌, ◌≡◌, Bool, true, false, List, ◌++◌, Option, none, some, Outcome, ok, absent,
  panicked, length, take, ◌==◌, ◌&&◌, if◌then◌else◌,
}
use wzp.Common.Words.{u32_mod, add32}
use wzp.Wire.Buf.{ByteBuf}
use wzp.Wire.Kinds.{MediaType, audio, video, data_stream, control}
use wzp.Wire.Kinds.Media
use wzp.Wire.Header.{MediaHeader, read_header, wire_size}
use wzp.Crypto.Nonce.{SessionId, Direction, send, build_nonce}
use wzp.Crypto.Rekey.{KeySchedule, RekeyManager, new_manager, perform_rekey}
use wzp.Crypto.Replay.{AntiReplayWindow, fresh, replay, with_window, check_and_update}

-- ChaCha20-Poly1305: with associated data, under a key and a nonce. What was encrypted decrypts.
pub record Aead (Key : Type 0) : Type 0 where
  pub seal : Key → List ℕ → List ℕ → List ℕ → Option (List ℕ)
  pub unseal : Key → List ℕ → List ℕ → List ℕ → Option (List ℕ)
  pub unseal-seal :
      (k : Key) (nonce aad m c : List ℕ)
      → seal k nonce aad m ≡ some c
      → unseal k nonce aad c ≡ some m

-- `CryptoError`, as far as the session returns it.
pub data CryptoError : Type 0 where
  internal decryption_failed replay_detected rekey_failed : CryptoError

pub data Crypted (A : Type 0) : Type 0 where
  done : A → Crypted A
  failed : CryptoError → Crypted A
  crashed : Crypted A

-- `default_window_for_media_type`
unfoldable pub default_window : MediaType → AntiReplayWindow
default_window audio = with_window 64
default_window video = with_window 1024
default_window data_stream = with_window 256
default_window control = with_window 32

module _ (ks : KeySchedule SessionId) where
  open ks use {Key, Secret, Public, derive, id_of, public_of}

  -- `ChaChaSession`; the cipher is held by its key, and the map of windows is a function.
  pub record ChaChaSession : Type 0 where
    pub cipher : Key
    pub session_id : SessionId
    pub send_seq : ℕ
    pub recv_seq : ℕ
    pub rekey_mgr : RekeyManager Key
    pub pending_rekey_secret : Option Secret
    pub sas_code : Option ℕ
    pub anti_replay : ℕ → MediaType → Option AntiReplayWindow
    pub last_encrypt_timestamp : Option ℕ

  unfoldable pub new_session : Key → ChaChaSession
  new_session shared_secret = record {
    cipher = shared_secret;
    session_id = id_of shared_secret;
    send_seq = 0;
    recv_seq = 0;
    rekey_mgr = new_manager shared_secret;
    pending_rekey_secret = none;
    sas_code = none;
    anti_replay = λ i t. none;
    last_encrypt_timestamp = none;
  }

  unfoldable pub set_sas : ChaChaSession → ℕ → ChaChaSession
  set_sas s code = record s { sas_code = some code }

  unfoldable pub install_key : ChaChaSession → Key → ChaChaSession
  install_key s k = record s { session_id = id_of k; cipher = k }

  -- The random secret comes from the operating system: an argument.
  unfoldable pub initiate_rekey : ChaChaSession → Secret → Public × ChaChaSession
  initiate_rekey s secret = (public_of secret, record s { pending_rekey_secret = some secret })

  unfoldable pub rekeyed : ChaChaSession → Secret → Public → ChaChaSession
  unfolding install_key
  rekeyed s secret peer =
      let total : ℕ = s.send_seq + s.recv_seq in
      let (new_key, mgr) = perform_rekey (λ k. derive k secret peer) s.rekey_mgr total in
      record (install_key s new_key) {
        pending_rekey_secret = none;
        rekey_mgr = mgr;
        send_seq = 0;
        recv_seq = 0;
      }

  unfoldable pub complete_rekey : ChaChaSession → Public → Crypted ChaChaSession
  complete_rekey s peer = elim s.pending_rekey_secret [
    | none ↦ failed rekey_failed
    | some secret ↦ done (rekeyed s secret peer)
  ]

  -- `entry(..).or_insert_with(..)` for a stream, and the map with that entry written.
  abbrev pub window_of : ChaChaSession → MediaHeader → AntiReplayWindow
  window_of s h = elim (s.anti_replay h.stream_id h.media_type) [
    | none ↦ default_window h.media_type
    | some x ↦ x
  ]

  abbrev pub with_window_of : ChaChaSession → MediaHeader → AntiReplayWindow → ChaChaSession
  with_window_of s h x = record s {
    anti_replay = λ i t.
        if i == h.stream_id && Media.to_wire t == Media.to_wire h.media_type
        then some x
        else s.anti_replay i t;
  }

  -- The nonce of a packet; `encrypt` and `decrypt` both pass `Direction::Send`.
  abbrev pub nonce_of : ChaChaSession → MediaHeader → List ℕ
  nonce_of s h = build_nonce s.session_id h.seq send

module _ (w : ByteBuf) (ks : KeySchedule SessionId) (aead : Aead ks.Key) where
  open aead use {seal, unseal}

  -- Also `parse_header`, whose length test is the reader's own.
  unfoldable pub encrypt :
      ChaChaSession ks → List ℕ → List ℕ → List ℕ → Crypted (List ℕ × ChaChaSession ks)
  encrypt s header_bytes plaintext out = elim (read_header w header_bytes) [
    | panicked ↦ crashed
    | absent ↦ failed internal
    | ok (header, _) ↦ elim (seal s.cipher (nonce_of ks s header) header_bytes plaintext) [
      | none ↦ failed internal
      | some ciphertext ↦ done (
        out ++ ciphertext,
        record s { send_seq = add32 s.send_seq 1; last_encrypt_timestamp = some header.timestamp },
      )
    ]
  ]

  -- The part of `decrypt` behind the cipher: the check against replay, which takes the plaintext
  -- back from `out`. The session that comes with an error is the changed one.
  unfoldable pub admit :
      ChaChaSession ks
      → MediaHeader
      → List ℕ
      → List ℕ
      → Crypted (Unit {0}) × List ℕ × ChaChaSession ks
  admit s header plaintext out =
      let extended = out ++ plaintext in
      let counted : ChaChaSession ks = record s { recv_seq = add32 s.recv_seq 1 } in
      let (v, x) = check_and_update (window_of ks s header) header.seq in
      let after = with_window_of ks counted header x in
      elim v [
        | fresh ↦ (done tt, extended, after)
        | replay ↦
            (failed replay_detected, take (length extended - length plaintext) extended, after)
      ]

  unfoldable pub decrypt :
      ChaChaSession ks → List ℕ → List ℕ → List ℕ → Crypted (Unit {0}) × List ℕ × ChaChaSession ks
  decrypt s header_bytes ciphertext out = elim (read_header w header_bytes) [
    | panicked ↦ (crashed, out, s)
    | absent ↦ (failed internal, out, s)
    | ok (header, _) ↦ elim (unseal s.cipher (nonce_of ks s header) header_bytes ciphertext) [
      | none ↦ (failed decryption_failed, out, s)
      | some plaintext ↦ admit s header plaintext out
    ]
  ]
