-- ===== src/SyncLock.antt =====
-- The lock of a media synchronisation, urpm/core/sync_lock.py, among processes that may crash.
-- Each process has one lock object, which does not try to acquire what it holds already; its
-- number is its PID. `fcntl.flock` gives the lock to one open file, and a crash closes the file.
pub mod States
pub mod Exclusion
pub mod Recovery
mod Tests
