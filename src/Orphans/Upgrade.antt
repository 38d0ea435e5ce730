-- ===== src/Orphans/Upgrade.antt =====
-- `find_upgrade_orphans` of urpm/core/resolution/orphans.py: the packages that a transaction makes
-- orphans, those of them that are erased, and those whose new version is not installed.
pub mod States
pub mod Reverse
pub mod Pinned
pub mod Search
pub mod Cancel
pub mod Plan
pub mod Correct
mod Tests
