-- ===== src/Crypto/Session/Laws.antt =====
-- What a session promises: the peer reads what was sent, nothing twice, and a packet that is
-- refused adds nothing to the output.
use wzp.Common.{
  ℕ, ◌+◌, ◌-◌, ◌≤◌, ◌≡◌, ◌≢◌, ◌↔◌, ◌⊎◌, inl, inr, refl, ap, ◌∙◌, true, List, ◌++◌, none, ok, length,
  take, arith, take-append, append-nil, length-append, Option-cases, Outcome-cases,
}
use wzp.Wire.Buf.{ByteBuf}
use wzp.Wire.Kinds.Media
use wzp.Wire.Header.{MediaHeader, IsHeader, read_header, write_header}
use wzp.Wire.Header.Laws.{read_header-write_header}
use wzp.Crypto.Nonce.{SessionId}
use wzp.Crypto.Rekey.{KeySchedule, should_rekey, perform_rekey, rekey_interval}
use wzp.Crypto.Replay.{Verdict, fresh, replay, check_and_update}
use wzp.Crypto.Session.{
  Aead, done, failed, replay_detected, decryption_failed, ChaChaSession, window_of, nonce_of,
  encrypt, admit, decrypt, rekeyed, complete_rekey,
}

Verdict-cases : (v : Verdict) → (v ≡ fresh) ⊎ (v ≡ replay)
Verdict-cases fresh = inl refl
Verdict-cases replay = inr refl

module _ (w : ByteBuf) (ks : KeySchedule SessionId) (aead : Aead ks.Key) where
  header_back : (h : MediaHeader) → IsHeader h → read_header w (write_header w h) ≡ ok (h, List.[])
  header_back h v = rw append-nil at (read_header-write_header w h List.[] v)

  take-extended : (out msg : List ℕ) → take (length (out ++ msg) - length msg) (out ++ msg) ≡ out
  take-extended out msg =
      ap (λ (n : ℕ). take n (out ++ msg)) (omega (arith, length-append out msg))
      ∙ take-append out msg

  -- What the cipher recovered is kept exactly if the window accepts its number.
  admit_cases :
      (s : ChaChaSession ks) (h : MediaHeader) (msg out : List ℕ)
      → (((check_and_update (window_of ks s h) h.seq).0 ≡ fresh)
          × ((admit w ks aead s h msg out).0 ≡ done tt)
          × ((admit w ks aead s h msg out).1 ≡ out ++ msg))
        ⊎ (((check_and_update (window_of ks s h) h.seq).0 ≡ replay)
            × ((admit w ks aead s h msg out).0 ≡ failed replay_detected)
            × ((admit w ks aead s h msg out).1 ≡ out))
  unfolding admit
  admit_cases s h msg out = elim (Verdict-cases (check_and_update (window_of ks s h) h.seq).0) [
    | inl e ↦ inl (e, ground arith, ground arith)
    | inr e ↦ inr (e, ground arith, ground (arith, take-extended out msg))
  ]

  -- A packet that one session encrypts under a header in range is decrypted by any session with
  -- the same key and identifier whose window accepts its number: the plaintext is added to the
  -- output.
  pub decrypt-encrypt :
      (a b a' : ChaChaSession ks) (h : MediaHeader) (msg c out : List ℕ)
      → a.cipher ≡ b.cipher
      → a.session_id ≡ b.session_id
      → IsHeader h
      → (check_and_update (window_of ks b h) h.seq).0 ≡ fresh
      → encrypt w ks aead a (write_header w h) msg List.[] ≡ done (c, a')
      → let r = decrypt w ks aead b (write_header w h) c out in (r.0 ≡ done tt) × (r.1 ≡ out ++ msg)
  unfolding encrypt decrypt
  decrypt-encrypt a b a' h msg c out k i v f e = ground (
    arith,
    header_back h v,
    aead.unseal-seal a.cipher (nonce_of ks a h) (write_header w h) msg c,
    admit_cases b h msg out,
  )

  -- A packet that is refused, for whatever reason, adds nothing to the output.
  pub decrypt_refused :
      (s : ChaChaSession ks) (hb c out : List ℕ)
      → (decrypt w ks aead s hb c out).0 ≢ done tt
      → (decrypt w ks aead s hb c out).1 ≡ out
  unfolding decrypt
  decrypt_refused s hb c out n = elim (Outcome-cases (read_header w hb)) [
    | inr (inl e) ↦ rw (e, decrypt) refl
    | inr (inr e) ↦ rw (e, decrypt) refl
    | inl ((h, r), e) ↦ elim (Option-cases (aead.unseal s.cipher (nonce_of ks s h) hb c)) [
      | inl u ↦ ground arith
      | inr (m, u) ↦ ground (arith, admit_cases s h m out)
    ]
  ]

  -- A packet whose header can be read and that the cipher does not authenticate is refused and
  -- leaves the output and the session as they were: a forgery cannot move a window.
  pub decrypt_forged :
      (s : ChaChaSession ks) (hb c out : List ℕ) (h : MediaHeader) (r : List ℕ)
      → read_header w hb ≡ ok (h, r)
      → aead.unseal s.cipher (nonce_of ks s h) hb c ≡ none
      → decrypt w ks aead s hb c out ≡ (failed decryption_failed, out, s)
  unfolding decrypt
  decrypt_forged s hb c out h r e u = ground arith

  -- After a rekey that succeeds both counters start from zero, but the count at which the manager
  -- last rekeyed is the old total: the next one is due exactly from that total and the interval
  -- on.
  pub complete_rekey_interval :
      (s s' : ChaChaSession ks) (peer : ks.Public) (packet_count : ℕ)
      → complete_rekey ks s peer ≡ done s'
      → (s'.send_seq + s'.recv_seq ≡ 0)
        × ((should_rekey s'.rekey_mgr packet_count ≡ true)
            ↔ (s.send_seq + s.recv_seq + rekey_interval ≤ packet_count))
  unfolding complete_rekey rekeyed perform_rekey should_rekey
  complete_rekey_interval s s' peer n e = elim (Option-cases s.pending_rekey_secret) [
    | inl p ↦ absurd (ground arith)
    | inr (k, p) ↦ ground arith
  ]
