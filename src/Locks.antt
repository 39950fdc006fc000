-- ===== src/Locks.antt =====
-- sparks/inference/sparkrun/validate_locks.py: the pins of the engines and the recipes that use them.
pub mod Regex
pub mod Checks
pub mod Dockerfile
pub mod Lock
pub mod Documents
pub mod Engines
pub mod Qwen
pub mod Deepseek
pub mod Validate
pub mod Recipe
pub mod Gates
pub mod Repository
mod Samples
mod Tests
