-- ===== src/Quality/Streak.antt =====
-- The worse reports in a row, counted from the reports themselves, against the counter that the
-- controller keeps.
use wzp.Common.{
  ℕ, ◌+◌, ◌≤◌, ◌≡◌, ◌⊎◌, refl, ◌∙◌, inl, inr, true, false, List, [], ◌∷◌, Option, arith, Bool-cases,
  if◌then◌else◌, some, none, ◌&&◌,
}
use wzp.Wire.Header.{QualityReport}
use wzp.Quality.Tiers.{Tier, NetworkContext, classify_with_context, downgrade, is_cellular}
use wzp.Quality.Controller.{
  Controller, new_controller, is_worse, observe, signal_network_change, step_down, force_profile,
  reset_counters, is_wifi,
}
use wzp.Quality.Invariant.{
  IsSound, Op, reports, changes_network, forces, resets, apply, apply_all, apply-IsSound,
  new-IsSound,
}
use wzp.Quality.Moves.{observe-Moves}

-- A report is worse where its tier is below the one that the controller has when it comes. Any other
-- report starts the count again, and what is not a report leaves it.
unfoldable pub count_worse : Controller → ℕ → Op → ℕ
count_worse c n (reports bwe r now) =
    if is_worse (classify_with_context r c.network_context) c.current_tier then n + 1 else 0
count_worse c n (changes_network context now) = n
count_worse c n (forces p) = n
count_worse c n resets = n

-- The counter knows of worse reports in a row only, and of none while a profile is forced.
record Counts (c : Controller) (n : ℕ) : Type 0 where
  pub in_row : c.consecutive_down ≤ n
  pub idle : (c.forced ≡ false) ⊎ (c.consecutive_down ≡ 0)

step_down-Counts : (c : Controller) (o : Option Tier) (n : ℕ) → Counts (step_down c o) n
unfolding step_down
step_down-Counts c none n = record { in_row = omega arith; idle = inl refl }
step_down-Counts c (some t) n = record { in_row = omega arith; idle = inl refl }

signal_network_change-Counts :
    (c : Controller) (context : NetworkContext) (now n : ℕ)
    → Counts c n
    → Counts (signal_network_change c context now) n
unfolding signal_network_change
signal_network_change-Counts c context now n h =
    let stepped = step_down-Counts c (downgrade c.current_tier) n in
    elim (Bool-cases (is_wifi c.network_context && is_cellular context)) [
      | inl e ↦ rw e (record { in_row = stepped.in_row; idle = stepped.idle })
      | inr e ↦ rw e (record { in_row = h.in_row; idle = h.idle })
    ]

module _ (ceiling : Tier → ℕ) where
  -- The worse reports in a row at the end of the operations.
  unfoldable pub worse_streak : Controller → ℕ → List Op → ℕ
  worse_streak c n [] = n
  worse_streak c n (o ∷ os) = worse_streak (apply ceiling c o) (count_worse c n o) os

  forced_observe :
      (bwe : Option ℕ) (c : Controller) (r : QualityReport) (now : ℕ)
      → c.forced ≡ true
      → (observe ceiling bwe c r now).1.consecutive_down ≡ c.consecutive_down
  unfolding observe
  forced_observe bwe c r now f = rw f refl

  observe-Counts :
      (bwe : Option ℕ) (c : Controller) (n : ℕ) (r : QualityReport) (now : ℕ)
      → IsSound c
      → Counts c n
      → Counts (observe ceiling bwe c r now).1 (count_worse c n (reports bwe r now))
  unfolding count_worse
  observe-Counts bwe c n r now s h =
      let m = observe-Moves ceiling bwe c r now s in
      elim (Bool-cases c.forced) [
        | inl f ↦
            let none_yet : c.consecutive_down ≡ 0 = ground (arith, f, h.idle) in
            let same = forced_observe bwe c r now f ∙ none_yet in
            record { in_row = omega (arith, same); idle = inr same }
        | inr f ↦ record {
          in_row =
              elim (Bool-cases
                (is_worse (classify_with_context r c.network_context) c.current_tier)) [
                  | inl w ↦ rw w (omega (arith, m.patience, h.in_row))
                  | inr w ↦ rw w (omega (arith, m.better f (ground (arith, w))))
                ];
          idle = inl (m.kept_forced ∙ f);
        }
      ]

  apply-Counts :
      (c : Controller) (n : ℕ) (o : Op)
      → IsSound c
      → Counts c n
      → Counts (apply ceiling c o) (count_worse c n o)
  unfolding apply force_profile reset_counters count_worse
  apply-Counts c n (reports bwe r now) s h = observe-Counts bwe c n r now s h
  apply-Counts c n (changes_network context now) s h =
      signal_network_change-Counts c context now n h
  apply-Counts c n (forces p) s h = record { in_row = omega arith; idle = inr refl }
  apply-Counts c n resets s h = record { in_row = omega arith; idle = inr refl }

  streak_from :
      (c : Controller) (n : ℕ) (os : List Op)
      → IsSound c
      → Counts c n
      → (apply_all ceiling c os).consecutive_down ≤ worse_streak c n os
  unfolding apply_all worse_streak
  streak_from c n [] s h = h.in_row
  streak_from c n (o ∷ os) s h =
      streak_from (apply ceiling c o) (count_worse c n o) os (apply-IsSound ceiling c o s)
        (apply-Counts c n o s h)

  pub consecutive_down_le :
      (os : List Op)
      → (apply_all ceiling new_controller os).consecutive_down ≤ worse_streak new_controller 0 os
  unfolding new_controller
  consecutive_down_le os =
      streak_from new_controller 0 os (new-IsSound ceiling)
        (record { in_row = omega arith; idle = inl refl })
