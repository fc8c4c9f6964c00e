-- ===== src/Quality/Tests.antt =====
-- The quality controller at concrete values.
use wzp.Common.{ℕ, ◌<◌, ◌+◌, ◌≤◌, ◌≡◌, ◌⊎◌, refl, false, List, [], ◌∷◌, none, some, arith}
use wzp.Wire.Header.{QualityReport, rtt_ms}
use wzp.Quality.Tiers.{
  Tier, catastrophic, studio32k, rank, profile, wifi, cellular_lte, is_cellular,
  classify_with_context, downgrade, upgrade_one_step,
}
use wzp.Quality.Controller.{
  Controller, new_controller, downgrade_threshold, observe, is_wifi, step_down,
  signal_network_change, force_profile, upgrade_threshold, lacks_bandwidth, to_tier, try_upgrade,
  try_transition, run_probe, start_probe, consider_probe, continue_probe, check_probe, remember,
  settle,
}
use wzp.Quality.Invariant.{Op, reports, changes_network, forces, apply, apply_all}
use wzp.Quality.Streak.{worse_streak}
use wzp.Quality.Hysteresis.{Reading, observe_all, ReadAs, observe_step, observe_all_fall}

abbrev ceiling : Tier → ℕ
ceiling t = 20000

abbrev bad : QualityReport
bad = record { loss_pct = 80; rtt_4ms = 40; jitter_ms = 0; bitrate_cap_kbps = 0 }

abbrev fine : QualityReport
fine = record { loss_pct = 0; rtt_4ms = 10; jitter_ms = 0; bitrate_cap_kbps = 0 }

abbrev reading : QualityReport → ℕ → Reading
reading r now = record { bwe = some 50000; report = r; now = now }

-- A handoff to a cellular network after a forced profile, and one bad report.
abbrev handoff : List Op
handoff =
    changes_network wifi 0
    ∷ reports none fine 500
    ∷ forces (profile studio32k)
    ∷ changes_network cellular_lte 1000
    ∷ reports (some 9000) fine 2000
    ∷ []

abbrev after : Controller
after = apply_all ceiling new_controller handoff

after_state :
    (rank after.current_tier ≡ 1)
    × ((after.consecutive_down ≡ 0)
        × ((downgrade_threshold after ≡ 2)
            × ((after.forced ≡ false)
                × (ReadAs ceiling catastrophic after.network_context
                    (reading bad 3000 ∷ reading bad 4000 ∷ [])))))
unfolding apply_all apply observe is_wifi step_down signal_network_change force_profile
    downgrade_threshold upgrade_threshold lacks_bandwidth to_tier try_upgrade try_transition
    run_probe start_probe consider_probe continue_probe check_probe remember settle rank profile
    ReadAs is_cellular classify_with_context downgrade upgrade_one_step new_controller rtt_ms
after_state = (refl, (refl, (refl, (refl, (refl, (refl, tt))))))

observe_step_example :
    (let d = (observe ceiling none after bad 3000).1 in
      (rank d.current_tier ≤ rank after.current_tier + 1)
      × ((rank after.current_tier ≤ rank d.current_tier)
          ⊎ ((downgrade_threshold after ≤ worse_streak ceiling new_controller 0 handoff + 1)
              × (rank (classify_with_context bad after.network_context) < rank after.current_tier)
              × (rank d.current_tier ≡ rank (classify_with_context bad after.network_context)))))
observe_step_example = observe_step ceiling handoff none bad 3000

observe_all_fall_example :
    rank (observe_all ceiling after (reading bad 3000 ∷ reading bad 4000 ∷ [])).current_tier
    ≡ rank catastrophic
unfolding rank
observe_all_fall_example =
    observe_all_fall ceiling handoff catastrophic (reading bad 3000 ∷ reading bad 4000 ∷ [])
      after_state.1.1.1.0 (omega (arith, after_state.0)) after_state.1.1.1.1
      (omega (arith, after_state.1.0, after_state.1.1.0)) (omega arith)
