-- ===== src/Relay/Policy/Escalation.antt =====
-- The second abuse within the cool-down is blocked, and the first one never is.
use Prim.Native.String.{String}
use text.Mathlib.TextEquality.{eq_iff}
use wzp.Common.{
  ℕ, ◌-◌, ◌<◌, ◌≡◌, ◌≢◌, refl, sym, ap, ap₂, ◌∙◌, Bool, true, false, ◌&&◌, not, List, [], ◌∷◌,
  Option, none, some, arith, if◌then◌else◌, All, Bool-cases, inl, inr, zero, suc, lt→ltb,
}
use wzp.Common.Maps.{str_eq}
use wzp.Relay.Policy.{
  Verdict, legitimate, suspect, abusive, ViolationCode, code_eq, code_index, bitrate, packet_rate,
  timestamp_drift, payload_size, rate_cap, entropy, block, close, HangupReason, policy_violation,
  enforcement, ResponsePolicy, new_policy, is_recent, record_abuse, evaluate, prune,
}

pub data Event : Type 0 where
  verdict : String → ViolationCode → Verdict → ℕ → Event
  prunes : ℕ → Event

abbrev pub apply : ResponsePolicy → Event → ResponsePolicy
apply s (verdict fp code v now) = (evaluate s fp code v now).1
apply s (prunes now) = prune s now

abbrev pub run : ResponsePolicy → List Event → ResponsePolicy
run s [] = s
run s (e ∷ es) = run (apply s e) es

abbrev pub time : Event → ℕ
time (verdict fp code v now) = now
time (prunes now) = now

-- The abuse of the user under the code.
abbrev pub is_abuse : String → ViolationCode → Event → Bool
is_abuse fp code (verdict f c abusive now) = str_eq fp f && code_eq code c
is_abuse fp code _ = false

str_eq-true : (a b : String) → str_eq a b ≡ true → a ≡ b
str_eq-true a b h = (eq_iff a b).0 h

abbrev code_at : ℕ → ViolationCode
code_at zero = bitrate
code_at (suc zero) = packet_rate
code_at (suc (suc zero)) = timestamp_drift
code_at (suc (suc (suc zero))) = payload_size
code_at (suc (suc (suc (suc zero)))) = rate_cap
code_at (suc (suc (suc (suc (suc n))))) = entropy

code_at-index : (c : ViolationCode) → code_at (code_index c) ≡ c
code_at-index bitrate = refl
code_at-index packet_rate = refl
code_at-index timestamp_drift = refl
code_at-index payload_size = refl
code_at-index rate_cap = refl
code_at-index entropy = refl

code_eq-true : (a b : ViolationCode) → code_eq a b ≡ true → a ≡ b
code_eq-true a b h = sym (code_at-index a) ∙ ap code_at (ground (arith, h)) ∙ code_at-index b

-- What the table says of the user and the code after an event.
evaluate-cooldowns :
    (s : ResponsePolicy) (fp f : String) (code c : ViolationCode) (v : Verdict) (now : ℕ)
    → (evaluate s f c v now).1.cooldowns fp code ≡ (
        if is_abuse fp code (verdict f c v now) && not (is_recent s now (s.cooldowns fp code))
        then some now
        else s.cooldowns fp code)
unfolding evaluate record_abuse
evaluate-cooldowns s fp f code c legitimate now = refl
evaluate-cooldowns s fp f code c suspect now = refl
evaluate-cooldowns s fp f code c abusive now = elim (Bool-cases (str_eq fp f && code_eq code c)) [
  | inl e ↦
      let same : f ≡ fp = sym (str_eq-true fp f (ground (arith, e))) in
      let same' : c ≡ code = sym (code_eq-true code c (ground (arith, e))) in
      let old : s.cooldowns f c ≡ s.cooldowns fp code = ap₂ s.cooldowns same same' in
      elim (Bool-cases (is_recent s now (s.cooldowns fp code))) [
        | inl r ↦ rw (e, old, r) refl
        | inr r ↦ rw (e, old, r, e) refl
      ]
  | inr e ↦ elim (Bool-cases (is_recent s now (s.cooldowns f c))) [
    | inl r ↦ rw (e, r) refl
    | inr r ↦ rw (e, r, e) refl
  ]
]

apply-duration : (s : ResponsePolicy) (e : Event) → (apply s e).block_duration ≡ s.block_duration
unfolding evaluate record_abuse prune
apply-duration s (verdict fp code legitimate now) = refl
apply-duration s (verdict fp code suspect now) = refl
apply-duration s (verdict fp code abusive now) = ground arith
apply-duration s (prunes now) = refl

-- The abuse was recorded at an instant.
abbrev pub Recorded : String → ViolationCode → ℕ → ℕ → ResponsePolicy → Type 0
Recorded fp code since duration s =
    (s.cooldowns fp code ≡ some since) × (s.block_duration ≡ duration)

-- An event within the cool-down.
abbrev pub Within : ℕ → ℕ → Event → Type 0
Within since duration e = time e - since < duration

recent :
    (fp : String) (code : ViolationCode) (since duration now : ℕ) (s : ResponsePolicy)
    → now - since < duration
    → Recorded fp code since duration s
    → is_recent s now (s.cooldowns fp code) ≡ true
recent fp code since duration now s w (r, d) =
    ap (is_recent s now) r ∙ lt→ltb (now - since) s.block_duration (omega (arith, w, d))

kept : (b : Bool) {o p : Option ℕ} (q : Option ℕ) → o ≡ p → (if b && false then q else o) ≡ p
kept true q e = e
kept false q e = e

apply-Recorded :
    (fp : String) (code : ViolationCode) (since duration : ℕ) (s : ResponsePolicy) (e : Event)
    → Within since duration e
    → Recorded fp code since duration s
    → Recorded fp code since duration (apply s e)
unfolding prune
apply-Recorded fp code since duration s (verdict f c v now) w (r, d) = (
  evaluate-cooldowns s fp f code c v now
      ∙ rw (recent fp code since duration now s w (r, d))
          (kept (is_abuse fp code (verdict f c v now)) (some now) r),
  apply-duration s (verdict f c v now) ∙ d,
)
apply-Recorded fp code since duration s (prunes now) w (r, d) =
    (rw (recent fp code since duration now s w (r, d)) r, d)

run-Recorded :
    (fp : String) (code : ViolationCode) (since duration : ℕ) (s : ResponsePolicy) (es : List Event)
    → All (Within since duration) es
    → Recorded fp code since duration s
    → Recorded fp code since duration (run s es)
run-Recorded fp code since duration s [] w r = r
run-Recorded fp code since duration s (e ∷ es) (h, w) r =
    run-Recorded fp code since duration (apply s e) es w
      (apply-Recorded fp code since duration s e h r)

again :
    (s : ResponsePolicy) (fp : String) (code : ViolationCode) (now : ℕ)
    → is_recent s now (s.cooldowns fp code) ≡ true
    → (evaluate s fp code abusive now).0 ≡ block
unfolding evaluate
again s fp code now e = rw (evaluate, e) refl

closed :
    (s : ResponsePolicy) (fp : String) (code : ViolationCode) (now : ℕ)
    → is_recent s now (s.cooldowns fp code) ≡ false
    → (evaluate s fp code abusive now).0 ≡ close (policy_violation code (enforcement code))
unfolding evaluate
closed s fp code now e = rw (evaluate, e) refl

blocked-IsNot_closed : (reason : HangupReason) → block ≢ close reason
blocked-IsNot_closed reason e = cc

-- Where the relay hung up, the abuse is on record.
closed-Recorded :
    (s : ResponsePolicy) (fp : String) (code : ViolationCode) (now : ℕ)
    → (evaluate s fp code abusive now).0 ≡ close (policy_violation code (enforcement code))
    → Recorded fp code now s.block_duration (evaluate s fp code abusive now).1
closed-Recorded s fp code now c = elim (Bool-cases (is_recent s now (s.cooldowns fp code))) [
  | inl e ↦ absurd (blocked-IsNot_closed _ (sym (again s fp code now e) ∙ c))
  | inr e ↦
      let mine : is_abuse fp code (verdict fp code abusive now) ≡ true =
        ground (arith, (eq_iff fp fp).1 refl) in
      (
        evaluate-cooldowns s fp fp code code abusive now ∙ rw (mine, e) refl,
        apply-duration s (verdict fp code abusive now),
      )
]

-- Once a user was hung up on for abuse under a code, abuse under that code is blocked for the whole of
-- the cool-down, whatever the relay evaluates or prunes in between.
pub run_block :
    (s : ResponsePolicy) (fp : String) (code : ViolationCode) (since now : ℕ) (es : List Event)
    → (evaluate s fp code abusive since).0 ≡ close (policy_violation code (enforcement code))
    → All (Within since s.block_duration) es
    → now - since < s.block_duration
    → (evaluate (run (evaluate s fp code abusive since).1 es) fp code abusive now).0 ≡ block
run_block s fp code since now es c w l =
    let t = run (evaluate s fp code abusive since).1 es in
    again t fp code now (
      recent fp code since s.block_duration now t l (
        run-Recorded fp code since s.block_duration (evaluate s fp code abusive since).1 es w
          (closed-Recorded s fp code since c)))

apply-none :
    (fp : String) (code : ViolationCode) (s : ResponsePolicy) (e : Event)
    → is_abuse fp code e ≡ false
    → s.cooldowns fp code ≡ none
    → (apply s e).cooldowns fp code ≡ none
unfolding prune
apply-none fp code s (verdict f c v now) h n = evaluate-cooldowns s fp f code c v now ∙ rw h n
apply-none fp code s (prunes now) h n = rw n refl

run-none :
    (fp : String) (code : ViolationCode) (s : ResponsePolicy) (es : List Event)
    → All (λ e. is_abuse fp code e ≡ false) es
    → s.cooldowns fp code ≡ none
    → (run s es).cooldowns fp code ≡ none
run-none fp code s [] h n = n
run-none fp code s (e ∷ es) (h, r) n =
    run-none fp code (apply s e) es r (apply-none fp code s e h n)

-- Without earlier abuse of a user under a code, it is answered by hanging up and never by a block.
pub run_first :
    (fp : String) (code : ViolationCode) (now : ℕ) (es : List Event)
    → All (λ e. is_abuse fp code e ≡ false) es
    → (evaluate (run new_policy es) fp code abusive now).0
      ≡ close (policy_violation code (enforcement code))
unfolding new_policy
run_first fp code now es h =
    closed (run new_policy es) fp code now
      (ap (is_recent (run new_policy es) now) (run-none fp code new_policy es h refl))
