-- ===== src/Quality/Moves.antt =====
-- How one report moves the tier, and how many it takes to lower it.
use wzp.Common.{
  ℕ, ◌+◌, ◌≤◌, ◌<◌, ◌≡◌, refl, ◌⊎◌, inl, inr, ap, Bool, true, false, ◌||◌, List, Option, none, some,
  arith, leb, ltb, ◌==◌, Bool-cases, if◌then◌else◌, subst, sym, ◌∙◌, leb→le,
}
use wzp.Wire.Header.{QualityReport}
use wzp.Quality.Tiers.{
  Tier, studio64k, rank, QualityProfile, is_cellular, classify_with_context, upgrade_one_step,
}
use wzp.Quality.Controller.{
  Controller, ProbeState, downgrade_threshold, upgrade_threshold, lacks_bandwidth, to_tier,
  try_upgrade, try_transition, run_probe, start_probe, consider_probe, continue_probe, check_probe,
  remember, settle, observe, is_worse, elapsed_from, or_now,
}
use wzp.Quality.Invariant.{IsSound, ProbeFits, rank-upgrade_one_step}

-- What the probing may do: raise the tier by one.
record Probes (c d : Controller) : Type 0 where
  pub at_least : rank c.current_tier ≤ rank d.current_tier
  pub at_most : rank d.current_tier ≤ rank c.current_tier + 1
  pub same_context : d.network_context ≡ c.network_context
  pub same_down : d.consecutive_down ≡ c.consecutive_down
  pub same_forced : d.forced ≡ c.forced

stays-Probes :
    (c : Controller) (o : Option ProbeState) (since : Option ℕ)
    → Probes c (record c { probe = o; stable_since = since })
stays-Probes c o since = record {
  at_least = omega arith;
  at_most = omega arith;
  same_context = refl;
  same_down = refl;
  same_forced = refl;
}

run_probe-Probes :
    (c : Controller) (p : ProbeState) (observed : Tier) (now : ℕ)
    → ProbeFits c.current_tier (some p)
    → Probes c (run_probe c p observed now).1
unfolding run_probe ProbeFits
run_probe-Probes c p observed now f =
    let next = rank-upgrade_one_step c.current_tier p.target_tier f.0 in
    let bad = p.bad_reports + (if is_worse observed p.target_tier then 1 else 0) in
    elim (Bool-cases (ltb 1 bad)) [
      | inl e ↦ rw e (stays-Probes c none _)
      | inr e ↦ elim (Bool-cases (elapsed_from now p.started 5000)) [
        | inl d ↦
            rw (e, d)
              (record {
                at_least = omega (arith, next);
                at_most = omega (arith, next);
                same_context = refl;
                same_down = refl;
                same_forced = refl;
              })
        | inr d ↦ rw (e, d) (stays-Probes c _ c.stable_since)
      ]
    ]

start_probe-Probes :
    (c : Controller) (since : Option ℕ) (o : Option Tier) (now : ℕ)
    → Probes c (start_probe (record c { stable_since = since }) o now).1
unfolding start_probe
start_probe-Probes c since none now = stays-Probes c c.probe since
start_probe-Probes c since (some next) now = stays-Probes c _ since

consider_probe-Probes :
    (c : Controller) (observed : Tier) (now : ℕ) → Probes c (consider_probe c observed now).1
unfolding consider_probe
consider_probe-Probes c observed now =
    elim (Bool-cases (leb (rank c.current_tier) (rank observed))) [
      | inl e ↦ elim (Bool-cases (elapsed_from now (or_now c.stable_since now) 30000)) [
        | inl d ↦ rw (e, d) (start_probe-Probes c _ (upgrade_one_step c.current_tier) now)
        | inr d ↦ rw (e, d) (stays-Probes c c.probe _)
      ]
      | inr e ↦ rw e (stays-Probes c c.probe none)
    ]

continue_probe-Probes :
    (c : Controller) (o : Option ProbeState) (observed : Tier) (now : ℕ)
    → ProbeFits c.current_tier o
    → Probes c (continue_probe c o observed now).1
unfolding continue_probe
continue_probe-Probes c none observed now f = consider_probe-Probes c observed now
continue_probe-Probes c (some p) observed now f = run_probe-Probes c p observed now f

check_probe-Probes :
    (c : Controller) (observed : Tier) (now : ℕ)
    → ProbeFits c.current_tier c.probe
    → Probes c (check_probe c observed now).1
unfolding check_probe
check_probe-Probes c observed now f =
    elim (Bool-cases
      ((c.forced || (rank c.current_tier == rank studio64k)) || is_cellular c.network_context)) [
        | inl e ↦ rw e (stays-Probes c c.probe c.stable_since)
        | inr e ↦ rw e (continue_probe-Probes c c.probe observed now f)
      ]

-- What one report does: up by one at most, and down only to its own tier when it completes the count.
pub record Moves (c d : Controller) (observed : Tier) : Type 0 where
  pub climb : rank d.current_tier ≤ rank c.current_tier + 1
  pub kept_context : d.network_context ≡ c.network_context
  pub kept_forced : d.forced ≡ c.forced
  pub patience : d.consecutive_down ≤ c.consecutive_down + 1
  pub fall :
      (rank c.current_tier ≤ rank d.current_tier)
      ⊎ ((downgrade_threshold c ≤ c.consecutive_down + 1) × (rank d.current_tier ≡ rank observed))
  pub worse :
      c.forced ≡ false
      → rank observed < rank c.current_tier
      → (rank d.current_tier ≡ rank observed)
        ⊎ ((c.consecutive_down + 1 < downgrade_threshold c)
            × ((d.consecutive_down ≡ c.consecutive_down + 1)
                × (rank c.current_tier ≤ rank d.current_tier)))
  pub better : c.forced ≡ false → rank c.current_tier ≤ rank observed → d.consecutive_down ≡ 0

-- Where the tier stays and the count of worse reports is reset, on a report that is not worse.
stays-Moves :
    (c d : Controller) (observed : Tier)
    → d.current_tier ≡ c.current_tier
    → d.network_context ≡ c.network_context
    → d.forced ≡ c.forced
    → d.consecutive_down ≡ 0
    → rank c.current_tier ≤ rank observed
    → Moves c d observed
stays-Moves c d observed same n f z b = record {
  climb = omega (arith, ap rank same);
  kept_context = n;
  kept_forced = f;
  patience = omega (arith, z);
  fall = inl (omega (arith, ap rank same));
  worse = λ g w. absurd (omega arith);
  better = λ g w. z;
}

-- The same of what `try_transition` returns; where it reports nothing, the tier stays for the probing.
Transits : Controller → Tier → Option QualityProfile × Controller → Type 0
Transits c observed (some p, d) = Moves c d observed
Transits c observed (none, d) =
    Moves c d observed × ((d.current_tier ≡ c.current_tier) × (d.probe ≡ c.probe))

settle-Moves :
    (c : Controller) (observed : Tier) (r : Option QualityProfile × Controller) (now : ℕ)
    → ProbeFits c.current_tier c.probe
    → Transits c observed r
    → Moves c (settle r observed now).1 observed
unfolding settle Transits
settle-Moves c observed (some p, d) now f m = record {
  climb = m.climb;
  kept_context = m.kept_context;
  kept_forced = m.kept_forced;
  patience = m.patience;
  fall = m.fall;
  worse = m.worse;
  better = m.better;
}
settle-Moves c observed (none, d) now f m =
    let fits =
      subst (λ t. ProbeFits t d.probe) (sym m.1.0)
        (subst (λ o. ProbeFits c.current_tier o) (sym m.1.1) f) in
    let p = check_probe-Probes d observed now fits in
    let same = ap rank m.1.0 in
    record {
      climb = omega (arith, p.at_most, same);
      kept_context = p.same_context ∙ m.0.kept_context;
      kept_forced = p.same_forced ∙ m.0.kept_forced;
      patience = omega (arith, p.same_down, m.0.patience);
      fall = inl (omega (arith, p.at_least, same));
      worse = λ e w. ground (arith, m.0.worse e w, p.same_down, p.at_least, same);
      better = λ e w. p.same_down ∙ m.0.better e w;
    }

upgrade-Transits :
    (ceiling : Tier → ℕ) (bwe : Option ℕ) (c d : Controller) (observed : Tier) (o : Option Tier)
    → upgrade_one_step c.current_tier ≡ o
    → rank c.current_tier < rank observed
    → d.current_tier ≡ c.current_tier
    → d.probe ≡ c.probe
    → d.network_context ≡ c.network_context
    → d.forced ≡ c.forced
    → d.consecutive_down ≡ 0
    → Transits c observed (try_upgrade ceiling bwe d o)
unfolding try_upgrade Transits to_tier
upgrade-Transits ceiling bwe c d observed none u better same p n f z =
    (stays-Moves c d observed same n f z (omega arith), (same, p))
upgrade-Transits ceiling bwe c d observed (some next) u better same p n f z =
    elim (Bool-cases (lacks_bandwidth ceiling bwe next)) [
      | inl e ↦ rw e (stays-Moves c _ observed same n f z (omega arith), (same, p))
      | inr e ↦ rw e (record {
        climb = omega (arith, step);
        kept_context = n;
        kept_forced = f;
        patience = omega (arith, z);
        fall = inl (omega (arith, step));
        worse = λ g w. absurd (omega arith);
        better = λ g w. z;
      })
    ]
  where
    step : rank next ≡ rank c.current_tier + 1
    step = rank-upgrade_one_step c.current_tier next u

transit-Moves :
    (ceiling : Tier → ℕ) (bwe : Option ℕ) (c : Controller) (observed : Tier)
    → Transits c observed (try_transition ceiling bwe c observed)
unfolding try_transition Transits to_tier
transit-Moves ceiling bwe c observed = elim (Bool-cases (rank observed == rank c.current_tier)) [
  | inl e ↦ rw e (stays-Moves c _ observed refl refl refl refl (ground (arith, e)), (refl, refl))
  | inr e ↦ elim (Bool-cases (is_worse observed c.current_tier)) [
    | inl w ↦ elim (Bool-cases (leb (downgrade_threshold c) (c.consecutive_down + 1))) [
      | inl d ↦
          rw (e, w, d)
            (record {
              climb = ground (arith, w);
              kept_context = refl;
              kept_forced = refl;
              patience = omega arith;
              fall = inr (leb→le _ _ d, refl);
              worse = λ g v. inl refl;
              better = λ g v. absurd (ground (arith, w, v));
            })
      | inr d ↦
          rw (e, w, d)
            (
              record {
                climb = omega arith;
                kept_context = refl;
                kept_forced = refl;
                patience = omega arith;
                fall = inl (omega arith);
                worse = λ g v. inr (ground (arith, d), (refl, omega arith));
                better = λ g v. absurd (ground (arith, w, v));
              },
              (refl, refl),
            )
    ]
    | inr w ↦ elim (Bool-cases (leb (upgrade_threshold c) (c.consecutive_up + 1))) [
      | inl d ↦
          rw (e, w, d)
            (upgrade-Transits ceiling bwe c _ observed (upgrade_one_step c.current_tier) refl
              (ground (arith, e, w)) refl refl refl refl refl)
      | inr d ↦
          rw (e, w, d)
            (stays-Moves c _ observed refl refl refl refl (ground (arith, e, w)), (refl, refl))
    ]
  ]
]

-- The history plays no part in it.
seen-Moves :
    (c d : Controller) (seen : List QualityReport) (observed : Tier)
    → Moves (record c { history = seen }) d observed
    → Moves c d observed
unfolding downgrade_threshold
seen-Moves c d seen observed m = record {
  climb = m.climb;
  kept_context = m.kept_context;
  kept_forced = m.kept_forced;
  patience = m.patience;
  fall = m.fall;
  worse = m.worse;
  better = m.better;
}

forced-Moves :
    (c : Controller) (seen : List QualityReport) (observed : Tier)
    → c.forced ≡ true
    → Moves c (record c { history = seen }) observed
forced-Moves c seen observed e = record {
  climb = omega arith;
  kept_context = refl;
  kept_forced = refl;
  patience = omega arith;
  fall = inl (omega arith);
  worse = λ g w. absurd (ground (arith, e, g));
  better = λ g w. absurd (ground (arith, e, g));
}

either-Moves :
    (c : Controller) (b : Bool) (x y : Option QualityProfile × Controller) (observed : Tier)
    → (b ≡ true → Moves c x.1 observed)
    → Moves c y.1 observed
    → Moves c (if b then x else y).1 observed
either-Moves c true x y observed h g = h refl
either-Moves c false x y observed h g = g

pub observe-Moves :
    (ceiling : Tier → ℕ) (bwe : Option ℕ) (c : Controller) (r : QualityReport) (now : ℕ)
    → IsSound c
    → Moves c (observe ceiling bwe c r now).1 (classify_with_context r c.network_context)
unfolding observe
observe-Moves ceiling bwe c r now h =
    let seen = record c { history = remember c.history r } in
    let observed = classify_with_context r c.network_context in
    either-Moves c c.forced (none, seen)
      (settle (try_transition ceiling bwe seen observed) observed now) observed
      (forced-Moves c (remember c.history r) observed)
      (seen-Moves c _ (remember c.history r) observed (
        settle-Moves seen observed (try_transition ceiling bwe seen observed) now h.probe_fits
          (transit-Moves ceiling bwe seen observed)))
