-- ===== src/Daemon/Tests.antt =====
-- Runs of the background scheduler.
use urpm_ng.Base.{Bool, List, map, length, ℕ, [], ◌∷◌, ◌≡◌, ◌<◌, true, false, refl}
use urpm_ng.Daemon.Schedule.{no_progress, Settings, Tick, run_ticks, jittered_ticks, round_div}
use urpm_ng.Daemon.Spacing.{AreSpaced, run_ticks-AreSpaced}
use urpm_ng.Daemon.Wakeup.{Probe, Wakeup, wakeup_ticks}
use urpm_ng.Daemon.Awake.{wakeup_ticks_serve}

abbrev settings : Settings
settings = record {
  auto_update_metadata = true;
  predownload_enabled = true;
  auto_replication = false;
  auto_fetch_server_dates = false;
  metadata_interval = 3600;
  predownload_interval = 7200;
  replication_interval = 3600;
  fetch_dates_interval = 600;
  tick_interval = 60;
}

-- the first draw is one tick, the jitter none; the downloads fail at the second tick
abbrev ticks : List (Tick settings)
ticks =
    map
      (λ (t : ℕ × Bool). record {
        now = t.0;
        draw = λ u. 0;
        jitter = λ u. 300;
        adaptive_interval = 120;
        raises = λ u. t.1;
      })
      ((1000, false) ∷ (1060, false) ∷ (1120, true) ∷ (1180, false) ∷ [])

-- the metadata are read at the second tick and, after 120 seconds, at the fourth
runs :
    map {B = ℕ × Bool} (λ r. (r.at, r.completed)) (run_ticks settings ticks no_progress).runs
    ≡ (1180, true) ∷ (1060, true) ∷ (1060, true) ∷ []
unfolding run_ticks jittered_ticks round_div
runs = refl

run_ticks-AreSpaced_example : AreSpaced settings (run_ticks settings ticks no_progress).runs
run_ticks-AreSpaced_example = run_ticks-AreSpaced settings ticks

abbrev started : Wakeup
started = record {
  detector = record { last_wall = 5000; last_mono = 400 };
  wakeup_pending = false;
  syncs = [];
}

abbrev probe : ℕ → ℕ → Bool → Probe
probe wall mono route = record {
  clocks = record { wall = wall; mono = mono };
  route_at_wakeup = route;
  route = route;
  sync_raises = false;
}

abbrev awake : Probe
awake = probe 5060 460 true

-- an hour asleep, and no route yet
abbrev woken : Probe
woken = probe 8700 500 false

abbrev later : List Probe
later = probe 8760 560 false ∷ probe 8820 620 true ∷ probe 8880 680 true ∷ []

-- one sync, at the first tick that has a route
syncs : (wakeup_ticks true (awake ∷ woken ∷ later) started).syncs ≡ 8820 ∷ []
unfolding wakeup_ticks
syncs = refl

wakeup_ticks_serve_example :
    length (wakeup_ticks true (awake ∷ []) started).syncs
    < length (wakeup_ticks true (awake ∷ woken ∷ later) started).syncs
unfolding wakeup_ticks
wakeup_ticks_serve_example = wakeup_ticks_serve true (awake ∷ []) later woken started refl refl refl
