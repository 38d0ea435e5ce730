-- ===== src/Daemon/Schedule.antt =====
-- `_should_run_task`, `_schedule_next` and `_check_tasks` of urpm/daemon/scheduler.py. Times are
-- seconds. What `random` draws is an argument: the first offset in ticks, and the jitter, which is
-- uniform over ±30 %, in thousandths of the interval.
use urpm_ng.Base.{
  Bool, List, Option, none, some, if◌then◌else◌, leb, ltb, not, ℕ, [], ◌∷◌, ◌+◌, ◌*◌, ◌/◌, ◌%◌,
  ◌||◌, true, false,
}

pub data Task : Type 0 where
  metadata predownload replication fetch_dates : Task

-- what the constructor takes from the settings
pub record Settings : Type 0 where
  pub auto_update_metadata : Bool
  pub predownload_enabled : Bool
  pub auto_replication : Bool
  pub auto_fetch_server_dates : Bool
  pub metadata_interval : ℕ
  pub predownload_interval : ℕ
  pub replication_interval : ℕ
  pub fetch_dates_interval : ℕ
  pub tick_interval : ℕ

abbrev pub is_enabled : Settings → Task → Bool
is_enabled c metadata = c.auto_update_metadata
is_enabled c predownload = c.predownload_enabled
is_enabled c replication = c.auto_replication
is_enabled c fetch_dates = c.auto_fetch_server_dates

abbrev pub interval_of : Settings → Task → ℕ
interval_of c metadata = c.metadata_interval
interval_of c predownload = c.predownload_interval
interval_of c replication = c.replication_interval
interval_of c fetch_dates = c.fetch_dates_interval

-- the times `_next_<task>_check`
pub record Plan : Type 0 where
  pub next_metadata : Option ℕ
  pub next_predownload : Option ℕ
  pub next_replication : Option ℕ
  pub next_fetch_dates : Option ℕ

abbrev pub next_of : Plan → Task → Option ℕ
next_of p metadata = p.next_metadata
next_of p predownload = p.next_predownload
next_of p replication = p.next_replication
next_of p fetch_dates = p.next_fetch_dates

abbrev pub set_next : Plan → Task → ℕ → Plan
set_next p metadata t = record p { next_metadata = some t }
set_next p predownload t = record p { next_predownload = some t }
set_next p replication t = record p { next_replication = some t }
set_next p fetch_dates t = record p { next_fetch_dates = some t }

abbrev pub max_of : ℕ → ℕ → ℕ
max_of a b = if ltb a b then b else a

-- Python's `round(a / b)`: to the nearest integer, and to the even one of two
unfoldable pub round_div : ℕ → ℕ → ℕ
round_div a b =
    let q = a / b in
    let twice = 2 * (a % b) in if ltb twice b then q else if ltb b twice then q + 1 else q + q % 2

module _ (c : Settings) where
  -- `max(1, int(base_interval * 0.5 / self.tick_interval))`
  unfoldable pub max_ticks : Task → ℕ
  max_ticks t = max_of 1 (interval_of c t / (2 * c.tick_interval))

  -- `random.randint(1, max_ticks)` ticks from now, from a draw
  unfoldable pub first_time : Task → ℕ → ℕ → ℕ
  unfolding max_ticks
  first_time t now draw = now + (1 + draw % max_ticks t) * c.tick_interval

  -- whether the task is due, and the plan with a first time where there was none
  unfoldable pub should_run_task : Plan → Task → ℕ → ℕ → Plan × Bool
  unfolding first_time
  should_run_task p t now draw = elim (next_of p t) [
    | none ↦ (set_next p t (first_time t now draw), false)
    | some time ↦ (p, leb time now)
  ]

  -- an interval with a jitter of 700 to 1300 thousandths, in whole ticks
  unfoldable pub jittered_ticks : ℕ → ℕ → ℕ
  unfolding round_div
  jittered_ticks base jitter =
      max_of 1 (round_div (base * (700 + jitter % 601)) (1000 * c.tick_interval))

  unfoldable pub schedule_next : Plan → Task → ℕ → ℕ → ℕ → Plan
  unfolding jittered_ticks
  schedule_next p t now base jitter =
      set_next p t (now + jittered_ticks base jitter * c.tick_interval)

  -- what a tick is given: the clock, the draws, the adaptive interval, and which tasks raise
  pub record Tick : Type 0 where
    pub now : ℕ
    pub draw : Task → ℕ
    pub jitter : Task → ℕ
    pub adaptive_interval : ℕ
    pub raises : Task → Bool

  -- the interval that a run is followed by
  abbrev pub base_interval : Tick → Task → ℕ
  base_interval k metadata = k.adaptive_interval
  base_interval k t = interval_of c t

-- a run of a task; it is not completed where it raises
pub record Run : Type 0 where
  pub task : Task
  pub at : ℕ
  pub completed : Bool

-- the plan, the runs so far, the last first, and whether the tick was left by an exception
pub record Progress : Type 0 where
  pub plan : Plan
  pub runs : List Run
  pub raised : Bool

module _ (c : Settings) where
  abbrev pub run_task : Tick c → Task → Progress → Progress
  run_task k t s =
      if k.raises t
      then record s {
        runs = record { task = t; at = k.now; completed = false } ∷ s.runs;
        raised = true;
      }
      else record s {
        plan = schedule_next c s.plan t k.now (base_interval c k t) (k.jitter t);
        runs = record { task = t; at = k.now; completed = true } ∷ s.runs;
      }

  -- one of the tests of `_check_tasks`
  unfoldable pub check_task : Tick c → Task → Progress → Progress
  unfolding should_run_task schedule_next
  check_task k t s =
      if s.raised || not (is_enabled c t)
      then s
      else let (plan, due) = should_run_task c s.plan t k.now (k.draw t) in
        let s' = record s { plan = plan } in if due then run_task k t s' else s'

  unfoldable pub check_tasks : Tick c → Progress → Progress
  unfolding check_task
  check_tasks k s = check_task k fetch_dates (
      check_task k replication
        (check_task k predownload (check_task k metadata (record s { raised = false }))))

  -- the ticks of the main loop, which goes on after an exception
  unfoldable pub run_ticks : List (Tick c) → Progress → Progress
  unfolding check_tasks
  run_ticks [] s = s
  run_ticks (k ∷ ks) s = run_ticks ks (check_tasks k s)

abbrev pub no_plan : Plan
no_plan = record {
  next_metadata = none;
  next_predownload = none;
  next_replication = none;
  next_fetch_dates = none;
}

abbrev pub no_progress : Progress
no_progress = record { plan = no_plan; runs = []; raised = false }
