-- ===== src/Orphans.antt =====
-- Orphan detection, urpm/core/resolution/orphans.py: packages that were installed as dependencies
-- and that no requested package needs, and the files that record why a package was installed.
pub mod Rpmdb
pub mod Headers
pub mod Graph
pub mod Edges
pub mod Ancestors
pub mod All
pub mod Tracking
pub mod Versions
pub mod BuildDeps
pub mod Sweep
pub mod Erase
pub mod Upgrade
mod Tests
