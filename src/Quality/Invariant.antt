-- ===== src/Quality/Invariant.antt =====
-- What holds of the quality controller throughout.
use wzp.Common.{
  ℕ, ◌+◌, ◌≤◌, ◌<◌, ◌≡◌, refl, Bool, true, false, List, [], ◌∷◌, Option, none, some, inl, inr,
  arith, leb, ltb, ◌==◌, Bool-cases, if◌then◌else◌, length, length-append, length-drop, drop, ap,
  ◌&&◌, ltb→le, ◌||◌,
}
use wzp.Wire.Header.{QualityReport}
use wzp.Quality.Tiers.{
  Tier, catastrophic, degraded, good, studio32k, studio48k, studio64k, rank, QualityProfile,
  profile, NetworkContext, is_cellular, classify_with_context, downgrade, upgrade_one_step,
}
use wzp.Quality.Controller.{
  Controller, ProbeState, new_controller, step_down, signal_network_change, reset_counters,
  force_profile, downgrade_threshold, upgrade_threshold, lacks_bandwidth, to_tier, try_upgrade,
  try_transition, run_probe, start_probe, consider_probe, continue_probe, check_probe, remember,
  settle, observe, is_worse, elapsed_from, or_now, is_wifi,
}

-- A running probe tries the next tier with its profile, and has met one bad report at most.
unfoldable pub ProbeFits : Tier → Option ProbeState → Type 0
ProbeFits t none = Unit
ProbeFits t (some p) =
    (upgrade_one_step t ≡ some p.target_tier)
    × ((p.target_profile ≡ profile p.target_tier) × (p.bad_reports ≤ 1))

pub record IsSound (c : Controller) : Type 0 where
  pub probe_fits : ProbeFits c.current_tier c.probe
  pub down_bound : c.consecutive_down < 3
  pub up_bound : c.consecutive_up < upgrade_threshold c
  pub history_bound : length c.history ≤ 20

abbrev rank_or : Option Tier → ℕ
unfolding rank
rank_or none = 0
rank_or (some t) = rank t

pub rank-upgrade_one_step :
    (t next : Tier) → upgrade_one_step t ≡ some next → rank next ≡ rank t + 1
unfolding rank upgrade_one_step
rank-upgrade_one_step catastrophic next e = omega (arith, ap rank_or e)
rank-upgrade_one_step degraded next e = omega (arith, ap rank_or e)
rank-upgrade_one_step good next e = omega (arith, ap rank_or e)
rank-upgrade_one_step studio32k next e = omega (arith, ap rank_or e)
rank-upgrade_one_step studio48k next e = omega (arith, ap rank_or e)
rank-upgrade_one_step studio64k next e = absurd (ground (arith, e))

-- The highest tier is the one that has no next.
pub rank_le_top : (t : Tier) → upgrade_one_step t ≡ none → (other : Tier) → rank other ≤ rank t
unfolding rank upgrade_one_step
rank_le_top t e catastrophic = omega arith
rank_le_top studio64k e degraded = omega arith
rank_le_top studio64k e good = omega arith
rank_le_top studio64k e studio32k = omega arith
rank_le_top studio64k e studio48k = omega arith
rank_le_top studio64k e studio64k = omega arith
rank_le_top catastrophic e other = absurd (ground (arith, e))
rank_le_top degraded e other = absurd (ground (arith, e))
rank_le_top good e other = absurd (ground (arith, e))
rank_le_top studio32k e other = absurd (ground (arith, e))
rank_le_top studio48k e other = absurd (ground (arith, e))

threshold_pos : (t : Tier) → 0 < (if leb (rank good) (rank t) then 10 else 5)
threshold_pos t = ground arith

length-remember :
    (h : List QualityReport) (r : QualityReport) → length h ≤ 20 → length (remember h r) ≤ 20
unfolding remember
length-remember h r b =
    ground (arith, length-append h (r ∷ []), length-drop 1 h, length-append (drop 1 h) (r ∷ []))

-- The parts of the state that no probe and no clock touches.
step_down-IsSound :
    (c : Controller) (o : Option Tier) (context : NetworkContext) (since until : Option ℕ)
    → IsSound c
    → IsSound (record (step_down c o) {
      network_context = context;
      probe = none;
      stable_since = since;
      fec_boost_until = until;
    })
unfolding step_down ProbeFits upgrade_threshold
step_down-IsSound c none context since until h = record {
  probe_fits = tt;
  down_bound = omega arith;
  up_bound = threshold_pos c.current_tier;
  history_bound = h.history_bound;
}
step_down-IsSound c (some t) context since until h = record {
  probe_fits = tt;
  down_bound = omega arith;
  up_bound = threshold_pos t;
  history_bound = h.history_bound;
}

signal_network_change-IsSound :
    (c : Controller) (context : NetworkContext) (now : ℕ)
    → IsSound c
    → IsSound (signal_network_change c context now)
unfolding signal_network_change ProbeFits upgrade_threshold
signal_network_change-IsSound c context now h =
    elim (Bool-cases (is_wifi c.network_context && is_cellular context)) [
      | inl e ↦ rw e (step_down-IsSound c (downgrade c.current_tier) context _ _ h)
      | inr e ↦ rw e (record {
        probe_fits = tt;
        down_bound = h.down_bound;
        up_bound = h.up_bound;
        history_bound = h.history_bound;
      })
    ]

run_probe-IsSound :
    (c : Controller) (p : ProbeState) (observed : Tier) (now : ℕ)
    → IsSound c
    → ProbeFits c.current_tier (some p)
    → IsSound (run_probe c p observed now).1
unfolding run_probe ProbeFits upgrade_threshold
run_probe-IsSound c p observed now h f =
    elim (Bool-cases (ltb 1 (p.bad_reports + (if is_worse observed p.target_tier then 1 else 0)))) [
      | inl e ↦ rw e (record {
        probe_fits = tt;
        down_bound = h.down_bound;
        up_bound = h.up_bound;
        history_bound = h.history_bound;
      })
      | inr e ↦ elim (Bool-cases (elapsed_from now p.started 5000)) [
        | inl d ↦
            rw (e, d)
              (record {
                probe_fits = tt;
                down_bound = h.down_bound;
                up_bound = threshold_pos p.target_tier;
                history_bound = h.history_bound;
              })
        | inr d ↦
            rw (e, d)
              (record {
                probe_fits = (f.0, (f.1.0, ltb→le 1 _ e));
                down_bound = h.down_bound;
                up_bound = h.up_bound;
                history_bound = h.history_bound;
              })
      ]
    ]

start_probe-IsSound :
    (c : Controller) (o : Option Tier) (now : ℕ)
    → IsSound c
    → upgrade_one_step c.current_tier ≡ o
    → IsSound (start_probe c o now).1
unfolding start_probe ProbeFits upgrade_threshold
start_probe-IsSound c none now h e = h
start_probe-IsSound c (some next) now h e = record {
  probe_fits = (e, (refl, omega arith));
  down_bound = h.down_bound;
  up_bound = h.up_bound;
  history_bound = h.history_bound;
}

stable-IsSound :
    (c : Controller) (since : Option ℕ) → IsSound c → IsSound (record c { stable_since = since })
unfolding upgrade_threshold
stable-IsSound c since h = record {
  probe_fits = h.probe_fits;
  down_bound = h.down_bound;
  up_bound = h.up_bound;
  history_bound = h.history_bound;
}

consider_probe-IsSound :
    (c : Controller) (observed : Tier) (now : ℕ)
    → IsSound c
    → IsSound (consider_probe c observed now).1
unfolding consider_probe
consider_probe-IsSound c observed now h =
    elim (Bool-cases (leb (rank c.current_tier) (rank observed))) [
      | inl e ↦ elim (Bool-cases (elapsed_from now (or_now c.stable_since now) 30000)) [
        | inl d ↦
            rw (e, d)
              (start_probe-IsSound _ (upgrade_one_step c.current_tier) now
                (stable-IsSound c (some (or_now c.stable_since now)) h) refl)
        | inr d ↦ rw (e, d) (stable-IsSound c (some (or_now c.stable_since now)) h)
      ]
      | inr e ↦ rw e (stable-IsSound c none h)
    ]

continue_probe-IsSound :
    (c : Controller) (o : Option ProbeState) (observed : Tier) (now : ℕ)
    → IsSound c
    → ProbeFits c.current_tier o
    → IsSound (continue_probe c o observed now).1
unfolding continue_probe
continue_probe-IsSound c none observed now h f = consider_probe-IsSound c observed now h
continue_probe-IsSound c (some p) observed now h f = run_probe-IsSound c p observed now h f

check_probe-IsSound :
    (c : Controller) (observed : Tier) (now : ℕ)
    → IsSound c
    → IsSound (check_probe c observed now).1
unfolding check_probe
check_probe-IsSound c observed now h =
    elim (Bool-cases
      ((c.forced || (rank c.current_tier == rank studio64k)) || is_cellular c.network_context)) [
        | inl e ↦ rw e h
        | inr e ↦ rw e (continue_probe-IsSound c c.probe observed now h h.probe_fits)
      ]

-- A controller whose tier has just changed is sound once its probe is taken away.
abbrev Settles : Option QualityProfile × Controller → Type 0
Settles (none, c) = IsSound c
Settles (some p, c) = IsSound (record c { probe = none; stable_since = none })

try_upgrade-Settles :
    (ceiling : Tier → ℕ) (bwe : Option ℕ) (c : Controller) (o : Option Tier)
    → IsSound (record c { consecutive_up = 0 })
    → (o ≡ none → IsSound c)
    → Settles (try_upgrade ceiling bwe c o)
unfolding try_upgrade to_tier upgrade_threshold ProbeFits
try_upgrade-Settles ceiling bwe c none h g = g refl
try_upgrade-Settles ceiling bwe c (some next) h g =
    elim (Bool-cases (lacks_bandwidth ceiling bwe next)) [
      | inl e ↦ rw e h
      | inr e ↦ rw e (record {
        probe_fits = tt;
        down_bound = h.down_bound;
        up_bound = threshold_pos next;
        history_bound = h.history_bound;
      })
    ]

counters-IsSound :
    (c : Controller) (up down : ℕ)
    → IsSound c
    → up < upgrade_threshold c
    → down < 3
    → IsSound (record c { consecutive_up = up; consecutive_down = down })
unfolding upgrade_threshold
counters-IsSound c up down h u d = record {
  probe_fits = h.probe_fits;
  down_bound = d;
  up_bound = u;
  history_bound = h.history_bound;
}

upgrade_threshold_pos : (c : Controller) → 0 < upgrade_threshold c
unfolding upgrade_threshold
upgrade_threshold_pos c = threshold_pos c.current_tier

tier-IsSound :
    (c : Controller) (t : Tier)
    → IsSound c
    → IsSound (record c {
      current_tier = t;
      current_profile = profile t;
      consecutive_up = 0;
      consecutive_down = 0;
      probe = none;
      stable_since = none;
    })
unfolding ProbeFits upgrade_threshold
tier-IsSound c t h = record {
  probe_fits = tt;
  down_bound = omega arith;
  up_bound = threshold_pos t;
  history_bound = h.history_bound;
}

downgrade_threshold_le : (c : Controller) → downgrade_threshold c ≤ 3
unfolding downgrade_threshold
downgrade_threshold_le c = ground arith

try_transition-Settles :
    (ceiling : Tier → ℕ) (bwe : Option ℕ) (c : Controller) (observed : Tier)
    → IsSound c
    → Settles (try_transition ceiling bwe c observed)
unfolding try_transition to_tier
try_transition-Settles ceiling bwe c observed h =
    elim (Bool-cases (rank observed == rank c.current_tier)) [
      | inl e ↦ rw e (counters-IsSound c 0 0 h (upgrade_threshold_pos c) (omega arith))
      | inr e ↦ elim (Bool-cases (is_worse observed c.current_tier)) [
        | inl w ↦ elim (Bool-cases (leb (downgrade_threshold c) (c.consecutive_down + 1))) [
          | inl d ↦ rw (e, w, d) (tier-IsSound c observed h)
          | inr d ↦
              rw (e, w, d)
                (counters-IsSound c 0 (c.consecutive_down + 1) h (upgrade_threshold_pos c)
                  (ground (arith, d, downgrade_threshold_le c)))
        ]
        | inr w ↦ elim (Bool-cases (leb (upgrade_threshold c) (c.consecutive_up + 1))) [
          | inl d ↦
              rw (e, w, d)
                (try_upgrade-Settles ceiling bwe _ (upgrade_one_step c.current_tier)
                  (counters-IsSound c 0 0 h (upgrade_threshold_pos c) (omega arith))
                  (λ n. absurd (ground (arith, e, w, rank_le_top c.current_tier n observed))))
          | inr d ↦
              rw (e, w, d)
                (counters-IsSound c (c.consecutive_up + 1) 0 h (ground (arith, d)) (omega arith))
        ]
      ]
    ]

settle-IsSound :
    (r : Option QualityProfile × Controller) (observed : Tier) (now : ℕ)
    → Settles r
    → IsSound (settle r observed now).1
unfolding settle
settle-IsSound (some p, c) observed now h = h
settle-IsSound (none, c) observed now h = check_probe-IsSound c observed now h

seen-IsSound :
    (c : Controller) (r : QualityReport)
    → IsSound c
    → IsSound (record c { history = remember c.history r })
unfolding upgrade_threshold
seen-IsSound c r h = record {
  probe_fits = h.probe_fits;
  down_bound = h.down_bound;
  up_bound = h.up_bound;
  history_bound = length-remember c.history r h.history_bound;
}

either-IsSound :
    (b : Bool) (x y : Option QualityProfile × Controller)
    → IsSound x.1
    → IsSound y.1
    → IsSound (if b then x else y).1
either-IsSound true x y h g = h
either-IsSound false x y h g = g

pub observe-IsSound :
    (ceiling : Tier → ℕ) (bwe : Option ℕ) (c : Controller) (r : QualityReport) (now : ℕ)
    → IsSound c
    → IsSound (observe ceiling bwe c r now).1
unfolding observe
observe-IsSound ceiling bwe c r now h = either-IsSound c.forced _ _ (seen-IsSound c r h) (
    settle-IsSound _ (classify_with_context r c.network_context) now (
      try_transition-Settles ceiling bwe _ (classify_with_context r c.network_context)
        (seen-IsSound c r h)))

-- What an application does with its controller, with the clock and the estimate that it reads.
pub data Op : Type 0 where
  reports : Option ℕ → QualityReport → ℕ → Op
  changes_network : NetworkContext → ℕ → Op
  forces : QualityProfile → Op
  resets : Op

module _ (ceiling : Tier → ℕ) where
  unfoldable pub apply : Controller → Op → Controller
  apply c (reports bwe r now) = (observe ceiling bwe c r now).1
  apply c (changes_network context now) = signal_network_change c context now
  apply c (forces p) = force_profile c p
  apply c resets = reset_counters c

  unfoldable pub apply_all : Controller → List Op → Controller
  apply_all c [] = c
  apply_all c (o ∷ os) = apply_all (apply c o) os

  pub apply-IsSound : (c : Controller) (o : Op) → IsSound c → IsSound (apply c o)
  unfolding apply reset_counters force_profile ProbeFits upgrade_threshold
  apply-IsSound c (reports bwe r now) h = observe-IsSound ceiling bwe c r now h
  apply-IsSound c (changes_network context now) h = signal_network_change-IsSound c context now h
  apply-IsSound c (forces p) h = record {
    probe_fits = h.probe_fits;
    down_bound = omega arith;
    up_bound = threshold_pos c.current_tier;
    history_bound = h.history_bound;
  }
  apply-IsSound c resets h = record {
    probe_fits = tt;
    down_bound = omega arith;
    up_bound = threshold_pos c.current_tier;
    history_bound = h.history_bound;
  }

  apply_all-IsSound : (c : Controller) (os : List Op) → IsSound c → IsSound (apply_all c os)
  unfolding apply_all
  apply_all-IsSound c [] h = h
  apply_all-IsSound c (o ∷ os) h = apply_all-IsSound (apply c o) os (apply-IsSound c o h)

  pub new-IsSound : IsSound new_controller
  unfolding new_controller ProbeFits upgrade_threshold
  new-IsSound = record {
    probe_fits = tt;
    down_bound = omega arith;
    up_bound = threshold_pos good;
    history_bound = omega arith;
  }

  pub apply_all_new-IsSound : (os : List Op) → IsSound (apply_all new_controller os)
  apply_all_new-IsSound os = apply_all-IsSound new_controller os new-IsSound
