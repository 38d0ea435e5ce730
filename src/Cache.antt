-- ===== src/Cache.antt =====
-- The cache of downloaded packages: urpm/core/cache.py over the table of urpm/core/db/cache.py.
pub mod Files
pub mod Eviction
pub mod Manager
pub mod DryRun
pub mod Cleanup
pub mod Marks
mod Tests
