-- ===== src/Daemon/Wakeup.antt =====
-- `WakeupDetector.check` of urpm/daemon/wakeup.py, and what the main loop `Scheduler._run` of
-- urpm/daemon/scheduler.py does with it before it checks the tasks. Clocks are seconds. What
-- `has_default_route` answers at each of its two calls, and whether the sync raises, is an argument.
use urpm_ng.Base.{Bool, List, if◌then◌else◌, ltb, not, ℕ, [], ◌∷◌, ◌+◌, ◌&&◌, true, false}

abbrev pub divergence_threshold : ℕ
divergence_threshold = 120

pub record WakeupDetector : Type 0 where
  pub last_wall : ℕ
  pub last_mono : ℕ

-- what the two clocks show
pub record Clocks : Type 0 where
  pub wall : ℕ
  pub mono : ℕ

-- the wall clock may be set back: the differences of the source are on the other side here
unfoldable pub check : WakeupDetector → Clocks → WakeupDetector × Bool
check d c = (
  record { last_wall = c.wall; last_mono = c.mono },
  ltb (d.last_wall + c.mono + divergence_threshold) (c.wall + d.last_mono),
)

pub record Wakeup : Type 0 where
  pub detector : WakeupDetector
  pub wakeup_pending : Bool
  -- the wall clock at each sync that was begun, the last first
  pub syncs : List ℕ

-- what the loop finds at a tick
pub record Probe : Type 0 where
  pub clocks : Clocks
  pub route_at_wakeup : Bool
  pub route : Bool
  pub sync_raises : Bool

module _ (auto_update_metadata : Bool) where
  -- after a detection: the state, and whether the sync was begun
  unfoldable pub on_wakeup : Probe → Wakeup → Wakeup × Bool
  on_wakeup k s =
      if not auto_update_metadata
      then (s, false)
      else if k.route_at_wakeup
      then (record s { syncs = k.clocks.wall ∷ s.syncs }, true)
      else (record s { wakeup_pending = true }, false)

  -- the deferred sync
  unfoldable pub on_pending : Probe → Wakeup → Wakeup
  on_pending k s =
      if s.wakeup_pending && auto_update_metadata && k.route
      then record s { wakeup_pending = false; syncs = k.clocks.wall ∷ s.syncs }
      else s

  -- after the detection; a sync that raises ends the tick
  abbrev pub after_wakeup : Probe → Wakeup × Bool → Wakeup
  after_wakeup k (s, begun) = if begun && k.sync_raises then s else on_pending k s

  unfoldable pub wakeup_tick : Probe → Wakeup → Wakeup
  unfolding check on_wakeup on_pending
  wakeup_tick k s =
      let (detector, woken) = check s.detector k.clocks in
      let s' = record s { detector = detector } in
      after_wakeup k (if woken then on_wakeup k s' else (s', false))

  unfoldable pub wakeup_ticks : List Probe → Wakeup → Wakeup
  unfolding wakeup_tick
  wakeup_ticks [] s = s
  wakeup_ticks (k ∷ ks) s = wakeup_ticks ks (wakeup_tick k s)
