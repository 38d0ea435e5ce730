-- ===== src/Mirrors/Pool.antt =====
-- The server pool, urpm/core/server_pool.py.
pub mod Candidates
pub mod Locations
pub mod Names
pub mod Ratio
pub mod Ensure
