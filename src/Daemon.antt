-- ===== src/Daemon.antt =====
-- The background scheduler of the daemon, urpm/daemon/scheduler.py and urpm/daemon/wakeup.py.
pub mod Schedule
pub mod Spacing
pub mod Wakeup
pub mod Awake
mod Tests
