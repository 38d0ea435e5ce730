-- ===== src/Download.antt =====
-- The downloader, urpm/core/download.py.
pub mod Items
pub mod Failover
pub mod One
pub mod Served
pub mod Correct
pub mod Slots
pub mod Interleave
pub mod Stable
pub mod Interleaved
pub mod Peers
pub mod Trusted
pub mod Plan
pub mod Shares
pub mod Planned
pub mod Budget
mod Tests
