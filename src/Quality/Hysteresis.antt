-- ===== src/Quality/Hysteresis.antt =====
-- The hysteresis of the quality controller over runs of reports.
use wzp.Common.{
  ℕ, ◌+◌, ◌≤◌, ◌<◌, ◌≡◌, ◌⊎◌, refl, ◌∙◌, inl, inr, false, List, [], ◌∷◌, Option, arith, length, All,
  subst, sym, Bool-cases,
}
use wzp.Wire.Header.{QualityReport}
use wzp.Quality.Tiers.{Tier, rank, NetworkContext, classify_with_context}
use wzp.Quality.Controller.{Controller, new_controller, downgrade_threshold, observe, is_worse}
use wzp.Quality.Invariant.{IsSound, observe-IsSound, Op, apply_all, apply_all_new-IsSound}
use wzp.Quality.Moves.{observe-Moves}
use wzp.Quality.Streak.{worse_streak, consecutive_down_le}

-- A report with what the estimator gives and the time.
pub record Reading : Type 0 where
  pub bwe : Option ℕ
  pub report : QualityReport
  pub now : ℕ

threshold_context :
    (c d : Controller)
    → d.network_context ≡ c.network_context
    → downgrade_threshold d ≡ downgrade_threshold c
unfolding downgrade_threshold
threshold_context c d e = rw e refl

module _ (ceiling : Tier → ℕ) where
  unfoldable pub observe_all : Controller → List Reading → Controller
  observe_all c [] = c
  observe_all c (r ∷ rs) = observe_all (observe ceiling r.bwe c r.report r.now).1 rs

  -- After any operations on a new controller, one report raises the tier by one step at most; and it
  -- lowers it only to the tier of the report itself, and only when that report is worse than the tier
  -- and with it as many reports in a row were worse, each than the tier at its time, as the network
  -- asks for: any report between them that is not worse starts the count again.
  pub observe_step :
      (os : List Op) (bwe : Option ℕ) (r : QualityReport) (now : ℕ)
      → (let c = apply_all ceiling new_controller os in
          let d = (observe ceiling bwe c r now).1 in
          (rank d.current_tier ≤ rank c.current_tier + 1)
          × ((rank c.current_tier ≤ rank d.current_tier)
              ⊎ ((downgrade_threshold c ≤ worse_streak ceiling new_controller 0 os + 1)
                  × (rank (classify_with_context r c.network_context) < rank c.current_tier)
                  × (rank d.current_tier ≡ rank (classify_with_context r c.network_context)))))
  observe_step os bwe r now =
      let c = apply_all ceiling new_controller os in
      let m =
        observe-Moves ceiling bwe (apply_all ceiling new_controller os) r now
          (apply_all_new-IsSound ceiling os) in
      (
        m.climb,
        elim m.fall [
          | inl kept ↦ inl kept
          | inr fell ↦
              elim (Bool-cases
                (is_worse (classify_with_context r c.network_context) c.current_tier)) [
                  | inl w ↦ inr (
                    omega (arith, fell.0, consecutive_down_le ceiling os),
                    ground (arith, w),
                    fell.1,
                  )
                  | inr w ↦ inl (ground (arith, w, fell.1))
                ]
        ],
      )

  -- All of the readings are of the tier, under the network.
  unfoldable pub ReadAs : Tier → NetworkContext → List Reading → Type 0
  ReadAs t context rs = All (λ r. rank (classify_with_context r.report context) ≡ rank t) rs

  fall_from :
      (c : Controller) (t : Tier) (rs : List Reading)
      → IsSound c
      → c.forced ≡ false
      → rank t < rank c.current_tier
      → ReadAs t c.network_context rs
      → length rs + c.consecutive_down ≡ downgrade_threshold c
      → 0 < length rs
      → rank (observe_all c rs).current_tier ≡ rank t
  unfolding observe_all ReadAs
  fall_from c t [] h f w a b p = absurd (omega arith)
  fall_from c t (r ∷ []) h f w a b p =
      let m = observe-Moves ceiling r.bwe c r.report r.now h in
      ground (arith, m.worse f (omega (arith, a.0)), a.0)
  fall_from c t (r ∷ s ∷ rs) h f w a b p =
      let d = (observe ceiling r.bwe c r.report r.now).1 in
      let m = observe-Moves ceiling r.bwe c r.report r.now h in
      elim (m.worse f (omega (arith, a.0))) [
        | inl e ↦ absurd (ground (arith, e, m.fall, a.0, b))
        | inr e ↦
            fall_from d t (s ∷ rs) (observe-IsSound ceiling r.bwe c r.report r.now h)
              (m.kept_forced ∙ f) (omega (arith, e.1.1))
              (subst (λ n. ReadAs t n (s ∷ rs)) (sym m.kept_context) a.1)
              (omega (arith, b, e.1.0, threshold_context c d m.kept_context)) (omega arith)
      ]

  -- Reports of one worse tier bring an unforced controller down to that tier: as many in a row as the
  -- network asks for, less the worse ones counted so far, whatever it did before and tries meanwhile.
  pub observe_all_fall :
      (os : List Op) (t : Tier) (rs : List Reading)
      → (apply_all ceiling new_controller os).forced ≡ false
      → rank t < rank (apply_all ceiling new_controller os).current_tier
      → ReadAs t (apply_all ceiling new_controller os).network_context rs
      → length rs + (apply_all ceiling new_controller os).consecutive_down
        ≡ downgrade_threshold (apply_all ceiling new_controller os)
      → 0 < length rs
      → rank (observe_all (apply_all ceiling new_controller os) rs).current_tier ≡ rank t
  observe_all_fall os t rs f w a b p = fall_from _ t rs (apply_all_new-IsSound ceiling os) f w a b p
