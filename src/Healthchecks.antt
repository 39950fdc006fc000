-- ===== src/Healthchecks.antt =====
-- The upsert of the healthchecks.io project, scripts/healthchecks.py.
pub mod Declaration
pub mod Service
pub mod Values
pub mod Live
pub mod Upsert
mod Tests
