-- ===== src/Resilient.antt =====
-- The install pipeline that goes on without the packages that cannot be installed,
-- urpm/core/resilient_install.py: which packages fail with a failed one, the checks of the files,
-- and the attempts from other servers.
pub mod Dependents
pub mod Verify
pub mod Retry
mod Tests
