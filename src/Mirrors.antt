-- ===== src/Mirrors.antt =====
-- The mirror list and the server pool: urpm/core/mirrorlist.py and urpm/core/server_pool.py.
pub mod Urls
pub mod Entries
pub mod Geo
pub mod Dedup
pub mod Servers
pub mod Backfill
pub mod Pool
mod Tests
