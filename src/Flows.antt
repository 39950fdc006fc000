-- ===== src/Flows.antt =====
-- The UniFi flow collector, kubernetes/apps/observability/unifi-flows/app/collector.py.
pub mod Runtime
pub mod Io
pub mod Console
pub mod Sink
pub mod Record
pub mod State
pub mod Times
pub mod Window
pub mod Store
pub mod Advance
pub mod Cycle
mod Tests
