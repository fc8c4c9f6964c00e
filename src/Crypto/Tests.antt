-- ===== src/Crypto/Tests.antt =====
-- The window, the nonce and the session at concrete values. The key material of the tests is a
-- number, and the cipher adds it to each packet as a tag.
use wzp.Common.{
  ℕ, ◌+◌, ◌≡◌, ◌≢◌, refl, ◌&&◌, ◌||◌, List, [], ◌∷◌, Option, none, some, ok, arith, if◌then◌else◌,
  ◌==◌, leb,
}
use wzp.Common.Words.{sub32}
use wzp.Wire.Buf.{big_endian}
use wzp.Wire.Kinds.{audio}
use wzp.Wire.Kinds.Media
use wzp.Wire.Kinds.Codec
use wzp.Wire.Kinds.Codec.{opus24k}
use wzp.Wire.Header.{MediaHeader, IsHeader, write_header, read_header}
use wzp.Crypto.Nonce.{SessionId}
use wzp.Crypto.Rekey.{KeySchedule}
use wzp.Crypto.Replay.{
  AntiReplayWindow, fresh, replay, with_window, set_bit, get_bit, moved_word, move_words,
  clear_words, advance_window, check_and_update,
}
use wzp.Crypto.Replay.Advance.{IsWindow}
use wzp.Crypto.Replay.Window.{with_window-IsWindow, check_and_update-IsWindow}
use wzp.Crypto.Replay.History.{
  seen, check_and_update_verdict, seen-check_and_update, run, replay_refused,
}
use wzp.Crypto.Session.{
  Aead, ChaChaSession, done, failed, decryption_failed, default_window, new_session, window_of,
  initiate_rekey, rekeyed, complete_rekey, encrypt, decrypt,
}
use wzp.Crypto.Session.Laws.{decrypt-encrypt, decrypt_forged}

abbrev window : AntiReplayWindow
window = with_window 64

window-IsWindow : IsWindow window
window-IsWindow = with_window-IsWindow 64 (omega arith) (omega arith)

-- 5 is refused behind 5, 7 and 4.
replay_refused_example :
    check_and_update (run (check_and_update window 5).1 (7 ∷ 4 ∷ [])) 5
    ≡ (replay, run (check_and_update window 5).1 (7 ∷ 4 ∷ []))
unfolding with_window check_and_update advance_window set_bit get_bit move_words clear_words
    moved_word
replay_refused_example =
    replay_refused window 5 (7 ∷ 4 ∷ []) (omega arith) window-IsWindow refl
      (omega arith, omega arith, (omega arith, omega arith, tt))

abbrev moved : AntiReplayWindow
moved = (check_and_update (check_and_update window 0xFFFF_FFFE).1 1).1

moved-IsWindow : IsWindow moved
moved-IsWindow =
    check_and_update-IsWindow (check_and_update window 0xFFFF_FFFE).1 1 (omega arith)
      (check_and_update-IsWindow window 0xFFFF_FFFE (omega arith) window-IsWindow)

check_and_update_verdict_example : (check_and_update moved 0xFFFF_FFFE).0 ≡ (
    let o : ℕ = sub32 moved.highest 0xFFFF_FFFE in
    if moved.initialized && (seen moved 0xFFFF_FFFE || leb moved.window_size o && leb o 0x8000_0000)
    then replay
    else fresh)
check_and_update_verdict_example =
    check_and_update_verdict moved 0xFFFF_FFFE (omega arith) moved-IsWindow

seen-check_and_update_example :
    seen (check_and_update moved 0xFFFF_FFFF).1 0xFFFF_FFFE
    ≡ (0xFFFF_FFFE == 0xFFFF_FFFF || seen moved 0xFFFF_FFFE)
unfolding with_window check_and_update advance_window set_bit get_bit move_words clear_words
    moved_word
seen-check_and_update_example =
    seen-check_and_update moved 0xFFFF_FFFF 0xFFFF_FFFE (omega arith) (omega arith) moved-IsWindow
      refl refl (omega arith)

abbrev id : ℕ → SessionId
id k = record { b0 = k; b1 = 0; b2 = 0; b3 = 0 }

abbrev nine : ℕ
nine = 9

abbrev schedule : KeySchedule SessionId
schedule = record {
  Key = ℕ;
  Secret = ℕ;
  Public = ℕ;
  public_of = λ s. s + 1;
  derive = λ k s p. k + s + p;
  id_of = id;
}

abbrev tagged : ℕ → List ℕ → List ℕ → List ℕ → Option (List ℕ)
tagged k n a m = some (k ∷ m)

abbrev opened : ℕ → List ℕ → List ℕ → List ℕ → Option (List ℕ)
opened k n a [] = none
opened k n a (t ∷ m) = if t == k then some m else none

opened-tagged : (k : ℕ) (n a m c : List ℕ) → tagged k n a m ≡ some c → opened k n a c ≡ some m
opened-tagged k n a m c h = ground arith

abbrev cipher : Aead schedule.Key
cipher = record { seal = tagged; unseal = opened; unseal-seal = opened-tagged }

abbrev session : ChaChaSession schedule
session = new_session schedule 77

abbrev header : MediaHeader
header = record {
  version = 2;
  flags = 0;
  media_type = audio;
  codec_id = opus24k;
  stream_id = 0;
  fec_ratio = 0;
  seq = 41;
  timestamp = 820;
  fec_block = 0;
}

header-IsHeader : IsHeader header
header-IsHeader = omega arith

abbrev header_bytes : List ℕ
header_bytes = write_header big_endian header

read_header-bytes : read_header big_endian header_bytes ≡ ok (header, [])
unfolding write_header read_header Media.to_wire Codec.to_wire Media.from_wire Codec.from_wire
read_header-bytes = refl

-- The session that has sent the packet, and the packet.
abbrev sender : ChaChaSession schedule
sender = record session { send_seq = 1; last_encrypt_timestamp = some 820 }

abbrev packet : List ℕ
packet = 77 ∷ 1 ∷ 2 ∷ []

unseen : (check_and_update (window_of schedule session header) header.seq).0 ≡ fresh
unfolding check_and_update default_window with_window new_session
unseen = refl

sealed :
    encrypt big_endian schedule cipher session header_bytes (1 ∷ 2 ∷ []) [] ≡ done (packet, sender)
unfolding encrypt read_header new_session write_header Media.from_wire Media.to_wire Codec.from_wire
    Codec.to_wire
sealed = refl

decrypt-encrypt_example :
    let r = decrypt big_endian schedule cipher session header_bytes packet (9 ∷ []) in
    (r.0 ≡ done tt) × (r.1 ≡ 9 ∷ 1 ∷ 2 ∷ [])
decrypt-encrypt_example =
    decrypt-encrypt big_endian schedule cipher session session sender header (1 ∷ 2 ∷ []) packet
      (9 ∷ []) refl refl header-IsHeader unseen sealed

-- A packet with another key's tag.
abbrev forged : List ℕ
forged = 78 ∷ 1 ∷ 2 ∷ []

-- `decrypt` on the forged packet.
decrypt-forged :
    decrypt big_endian schedule cipher session header_bytes forged (9 ∷ [])
    ≡ (failed decryption_failed, 9 ∷ [], session)
unfolding new_session
decrypt-forged =
    decrypt_forged big_endian schedule cipher session header_bytes forged (9 ∷ []) header []
      read_header-bytes refl

forged-refused :
    (decrypt big_endian schedule cipher session header_bytes forged (9 ∷ [])).0 ≢ done tt
forged-refused h = ground (arith, decrypt-forged)

-- 40,000 packets sent before a rekey.
abbrev busy : ChaChaSession schedule
busy = (initiate_rekey schedule (record session { send_seq = 40000 }) 5).1

abbrev rekeyed_session : ChaChaSession schedule
rekeyed_session = rekeyed schedule busy 5 6

rekey_done : complete_rekey schedule busy 6 ≡ done rekeyed_session
unfolding initiate_rekey complete_rekey
rekey_done = refl
