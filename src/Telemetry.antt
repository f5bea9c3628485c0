-- ===== src/Telemetry.antt =====
-- backend/internal/telemetry: live vehicle state and its fan-out.
pub mod Store
pub mod Mailbox
pub mod Hub
pub mod Alerts
mod Tests
