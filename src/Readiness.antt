-- ===== src/Readiness.antt =====
-- The readiness gate of the model servers,
-- sparks/inference/sparkrun/mods/tensorfold-readiness-v2/readiness.py.
pub mod Nearest
pub mod Server
pub mod Python
pub mod Health
pub mod Models
pub mod Replies
pub mod Renders
pub mod Main
mod Tests
