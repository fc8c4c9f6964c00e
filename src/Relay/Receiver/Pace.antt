-- ===== src/Relay/Receiver/Pace.antt =====
-- How often the layer of a receiver changes.
use wzp.Common.{
  ℕ, ◌+◌, ◌-◌, ◌≤◌, ◌<◌, ◌≡◌, ◌≢◌, ◌⊎◌, refl, List, [], ◌∷◌, arith, inl, inr, Bool-cases, ◌∙◌, All,
  leb, ◌==◌,
}
use wzp.Relay.Receiver.{ReceiverState, suggest_layer, update_receiver}

-- A measurement of the network with its time.
pub record Measure : Type 0 where
  pub bwe_kbps : ℕ
  pub loss_pct : ℕ
  pub now : ℕ

unfoldable pub update_all : ReceiverState → List Measure → ReceiverState
update_all s [] = s
update_all s (u ∷ us) = update_all (update_receiver s u.bwe_kbps u.loss_pct u.now) us

-- Measured before, and no other layer in view since before the time.
record IsHeld (t : ℕ) (s : ReceiverState) : Type 0 where
  pub measured : 0 < s.bwe_kbps
  pub settled : (s.candidate_layer ≡ s.selected_layer) ⊎ (t ≤ s.candidate_since)

-- A bandwidth above zero, less than 3000 ms after the time.
abbrev pub Within : ℕ → Measure → Type 0
Within t u = (0 < u.bwe_kbps) × ((t ≤ u.now) × (u.now < t + 3000))

update_receiver-IsHeld :
    (t : ℕ) (s : ReceiverState) (u : Measure)
    → Within t u
    → IsHeld t s
    → IsHeld t (update_receiver s u.bwe_kbps u.loss_pct u.now)
      × ((update_receiver s u.bwe_kbps u.loss_pct u.now).selected_layer ≡ s.selected_layer)
unfolding update_receiver
update_receiver-IsHeld t s u w h =
    let g = suggest_layer u.bwe_kbps u.loss_pct in
    elim (Bool-cases (g == s.selected_layer)) [
      | inl e ↦ rw e (record { measured = w.0; settled = inr (w.1.0) }, refl)
      | inr e ↦ elim (Bool-cases (s.bwe_kbps == 0)) [
        | inl z ↦ absurd (ground (arith, z, h.measured))
        | inr z ↦ elim (Bool-cases (g == s.candidate_layer)) [
          | inl c ↦ elim (Bool-cases (leb 3000 (u.now - s.candidate_since))) [
            | inl d ↦ absurd (ground (arith, h.settled, c, d, e))
            | inr d ↦ rw (e, z, c, d) (record { measured = w.0; settled = h.settled }, refl)
          ]
          | inr c ↦ rw (e, z, c) (record { measured = w.0; settled = inr (w.1.0) }, refl)
        ]
      ]
    ]

update_all_held :
    (t : ℕ) (s : ReceiverState) (us : List Measure)
    → All (Within t) us
    → IsHeld t s
    → (update_all s us).selected_layer ≡ s.selected_layer
unfolding update_all
update_all_held t s [] w h = refl
update_all_held t s (u ∷ us) w h =
    let r = update_receiver-IsHeld t s u w.0 h in
    update_all_held t (update_receiver s u.bwe_kbps u.loss_pct u.now) us w.1 r.0 ∙ r.1

-- What an update leaves that has changed the layer.
switched-IsHeld :
    (s : ReceiverState) (u : Measure)
    → 0 < u.bwe_kbps
    → (update_receiver s u.bwe_kbps u.loss_pct u.now).selected_layer ≢ s.selected_layer
    → IsHeld u.now (update_receiver s u.bwe_kbps u.loss_pct u.now)
unfolding update_receiver
switched-IsHeld s u p n =
    let g = suggest_layer u.bwe_kbps u.loss_pct in
    elim (Bool-cases (g == s.selected_layer)) [
      | inl e ↦ rw e (record { measured = p; settled = inr (omega arith) })
      | inr e ↦ elim (Bool-cases (s.bwe_kbps == 0)) [
        | inl z ↦ rw (e, z) (record { measured = p; settled = inl refl })
        | inr z ↦ elim (Bool-cases (g == s.candidate_layer)) [
          | inl c ↦ elim (Bool-cases (leb 3000 (u.now - s.candidate_since))) [
            | inl d ↦ rw (e, z, c, d) (record { measured = p; settled = inl (ground (arith, c)) })
            | inr d ↦ absurd ((rw (e, z, c, d) at n) refl)
          ]
          | inr c ↦ rw (e, z, c) (record { measured = p; settled = inr (omega arith) })
        ]
      ]
    ]

-- A receiver's layer does not flicker: once an update has changed it, no update of the next 3000 ms
-- changes it again, whatever is measured, as long as the bandwidths are above zero and the clock does
-- not run back behind the change.
pub update_all_pace :
    (s : ReceiverState) (u : Measure) (us : List Measure)
    → 0 < u.bwe_kbps
    → (update_receiver s u.bwe_kbps u.loss_pct u.now).selected_layer ≢ s.selected_layer
    → All (Within u.now) us
    → (update_all (update_receiver s u.bwe_kbps u.loss_pct u.now) us).selected_layer
      ≡ (update_receiver s u.bwe_kbps u.loss_pct u.now).selected_layer
update_all_pace s u us p n w = update_all_held u.now _ us w (switched-IsHeld s u p n)
