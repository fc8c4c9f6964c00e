-- ===== src/Quality/Controller.antt =====
-- crates/wzp-proto/src/quality.rs, AdaptiveQualityController. Times are in milliseconds; an operation
-- reads the clock once. The amount of the FEC boost is left out, its window is kept. What the
-- bandwidth estimator gives and the bit rate that a tier may take, which are computed in floating
-- point, are arguments.
use wzp.Common.{
  ℕ, ◌+◌, ◌*◌, ◌-◌, ◌/◌, Bool, true, false, ◌||◌, ◌&&◌, List, [], ◌∷◌, ◌++◌, Option, none, some,
  leb, ltb, ◌==◌, if◌then◌else◌, length, drop,
}
use wzp.Wire.Header.{QualityReport}
use wzp.Quality.Tiers.{
  Tier, good, studio64k, rank, QualityProfile, profile, NetworkContext, wifi, unknown, is_cellular,
  classify_with_context, downgrade, upgrade_one_step,
}

abbrev pub downgrade_limit : ℕ
downgrade_limit = 3

abbrev pub cellular_downgrade_limit : ℕ
cellular_downgrade_limit = 2

abbrev pub upgrade_limit : ℕ
upgrade_limit = 5

abbrev pub studio_upgrade_limit : ℕ
studio_upgrade_limit = 10

abbrev pub history_size : ℕ
history_size = 20

abbrev pub fec_boost_duration : ℕ
fec_boost_duration = 10000

abbrev pub probe_stable : ℕ
probe_stable = 30000

abbrev pub probe_duration : ℕ
probe_duration = 5000

abbrev pub probe_max_bad : ℕ
probe_max_bad = 1

abbrev pub probe_cooldown : ℕ
probe_cooldown = 60000

pub record ProbeState : Type 0 where
  pub target_tier : Tier
  pub target_profile : QualityProfile
  pub started : ℕ
  pub probe_reports : ℕ
  pub bad_reports : ℕ

pub record Controller : Type 0 where
  pub current_tier : Tier
  pub current_profile : QualityProfile
  pub consecutive_up : ℕ
  pub consecutive_down : ℕ
  pub history : List QualityReport
  pub forced : Bool
  pub network_context : NetworkContext
  pub fec_boost_until : Option ℕ
  pub probe : Option ProbeState
  pub stable_since : Option ℕ

unfoldable pub new_controller : Controller
new_controller = record {
  current_tier = good;
  current_profile = profile good;
  consecutive_up = 0;
  consecutive_down = 0;
  history = [];
  forced = false;
  network_context = unknown;
  fec_boost_until = none;
  probe = none;
  stable_since = none;
}

-- `x.elapsed() >= d`; an instant that is yet to come has elapsed by zero.
abbrev pub elapsed_from : ℕ → ℕ → ℕ → Bool
elapsed_from now since span = leb span (now - since)

abbrev pub is_worse : Tier → Tier → Bool
is_worse a b = ltb (rank a) (rank b)

unfoldable pub is_wifi : NetworkContext → Bool
is_wifi wifi = true
is_wifi _ = false

-- The preemptive step down and the reset that a handoff from WiFi to a cellular network brings.
unfoldable pub step_down : Controller → Option Tier → Controller
unfolding profile
step_down c none = record c { consecutive_up = 0; consecutive_down = 0; forced = false }
step_down c (some lower) = record c {
  current_tier = lower;
  current_profile = profile lower;
  consecutive_up = 0;
  consecutive_down = 0;
  forced = false;
}

unfoldable pub signal_network_change : Controller → NetworkContext → ℕ → Controller
unfolding is_wifi is_cellular
signal_network_change c context now =
    let handed =
      if is_wifi c.network_context && is_cellular context
      then step_down c (downgrade c.current_tier)
      else c in
    record handed {
      network_context = context;
      probe = none;
      stable_since = none;
      fec_boost_until = some (now + fec_boost_duration);
    }

abbrev pub before : ℕ → Option ℕ → Bool
before now none = false
before now (some until) = ltb now until

-- Whether `fec_boost` gives the amount and not zero.
unfoldable pub has_fec_boost : Controller → ℕ → Bool
has_fec_boost c now = before now c.fec_boost_until

unfoldable pub reset_counters : Controller → Controller
reset_counters c = record c {
  consecutive_up = 0;
  consecutive_down = 0;
  probe = none;
  stable_since = none;
}

unfoldable pub force_profile : Controller → QualityProfile → Controller
force_profile c p = record c {
  current_profile = p;
  forced = true;
  consecutive_up = 0;
  consecutive_down = 0;
}

unfoldable pub downgrade_threshold : Controller → ℕ
unfolding is_cellular
downgrade_threshold c =
    if is_cellular c.network_context then cellular_downgrade_limit else downgrade_limit

unfoldable pub upgrade_threshold : Controller → ℕ
unfolding rank
upgrade_threshold c =
    if leb (rank good) (rank c.current_tier) then studio_upgrade_limit else upgrade_limit

-- The bandwidth guard: 130 % of what the tier may take, where an estimator is attached.
unfoldable pub lacks_bandwidth : (Tier → ℕ) → Option ℕ → Tier → Bool
lacks_bandwidth ceiling none next = false
lacks_bandwidth ceiling (some target_bps) next = ltb target_bps ((ceiling next * 130) / 100)

unfoldable pub to_tier : Controller → Tier → Controller
to_tier c t = record c { current_tier = t; current_profile = profile t }

-- The upgrade by one step, once enough better reports have come.
unfoldable pub try_upgrade :
    (Tier → ℕ) → Option ℕ → Controller → Option Tier → Option QualityProfile × Controller
try_upgrade ceiling bwe c none = (none, c)
try_upgrade ceiling bwe c (some next) =
    if lacks_bandwidth ceiling bwe next
    then (none, record c { consecutive_up = 0 })
    else (some (profile next), record (to_tier c next) { consecutive_up = 0 })

unfoldable pub try_transition :
    (Tier → ℕ) → Option ℕ → Controller → Tier → Option QualityProfile × Controller
try_transition ceiling bwe c observed =
    let down = record c { consecutive_up = 0; consecutive_down = c.consecutive_down + 1 } in
    let up = record c { consecutive_down = 0; consecutive_up = c.consecutive_up + 1 } in
    if rank observed == rank c.current_tier
    then (none, record c { consecutive_up = 0; consecutive_down = 0 })
    else (if is_worse observed c.current_tier
        then (if leb (downgrade_threshold c) (c.consecutive_down + 1)
            then (some (profile observed), record (to_tier down observed) { consecutive_down = 0 })
            else (none, down))
        else (if leb (upgrade_threshold c) (c.consecutive_up + 1)
            then try_upgrade ceiling bwe up (upgrade_one_step c.current_tier)
            else (none, up)))

-- One report into a running probe: too many bad ones end it with a cool-down, its time ends it with
-- the tier it tried.
unfoldable pub run_probe : Controller → ProbeState → Tier → ℕ → Option QualityProfile × Controller
run_probe c p observed now =
    let bad = p.bad_reports + (if is_worse observed p.target_tier then 1 else 0) in
    if ltb probe_max_bad bad
    then (none, record c { probe = none; stable_since = some (now + probe_cooldown) })
    else (if elapsed_from now p.started probe_duration
        then (
          some p.target_profile,
          record c {
            probe = none;
            current_tier = p.target_tier;
            current_profile = p.target_profile;
            consecutive_up = 0;
            stable_since = some now;
          },
        )
        else (
          none,
          record c {
            probe = some (record p { probe_reports = p.probe_reports + 1; bad_reports = bad });
          },
        ))

abbrev pub or_now : Option ℕ → ℕ → ℕ
or_now none now = now
or_now (some t) now = t

abbrev pub new_probe : Tier → ℕ → ProbeState
new_probe next now = record {
  target_tier = next;
  target_profile = profile next;
  started = now;
  probe_reports = 0;
  bad_reports = 0;
}

unfoldable pub start_probe : Controller → Option Tier → ℕ → Option QualityProfile × Controller
start_probe c none now = (none, c)
start_probe c (some next) now =
    (some (profile next), record c { probe = some (new_probe next now) })

-- No probe is running: whether one starts.
unfoldable pub consider_probe : Controller → Tier → ℕ → Option QualityProfile × Controller
consider_probe c observed now =
    let since = or_now c.stable_since now in
    let stable = record c { stable_since = some since } in
    if leb (rank c.current_tier) (rank observed)
    then (if elapsed_from now since probe_stable
        then start_probe stable (upgrade_one_step c.current_tier) now
        else (none, stable))
    else (none, record c { stable_since = none })

unfoldable pub continue_probe :
    Controller → Option ProbeState → Tier → ℕ → Option QualityProfile × Controller
continue_probe c none observed now = consider_probe c observed now
continue_probe c (some p) observed now = run_probe c p observed now

unfoldable pub check_probe : Controller → Tier → ℕ → Option QualityProfile × Controller
check_probe c observed now =
    if (c.forced || (rank c.current_tier == rank studio64k)) || is_cellular c.network_context
    then (none, c)
    else continue_probe c c.probe observed now

unfoldable pub remember : List QualityReport → QualityReport → List QualityReport
remember h r = (if leb history_size (length h) then drop 1 h else h) ++ (r ∷ [])

-- What follows `try_transition` in `observe`.
unfoldable pub settle :
    Option QualityProfile × Controller → Tier → ℕ → Option QualityProfile × Controller
settle (some p, c) observed now = (some p, record c { probe = none; stable_since = none })
settle (none, c) observed now = check_probe c observed now

unfoldable pub observe :
    (Tier → ℕ) → Option ℕ → Controller → QualityReport → ℕ → Option QualityProfile × Controller
observe ceiling bwe c report now =
    let seen = record c { history = remember c.history report } in
    if c.forced
    then (none, seen)
    else (let observed = classify_with_context report c.network_context in
        settle (try_transition ceiling bwe seen observed) observed now)
