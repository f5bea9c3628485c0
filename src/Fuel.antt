-- ===== src/Fuel.antt =====
-- backend/internal/fuel: fuel withholding, vehicle quotas and pump sessions.
pub mod Models
pub mod Repo
pub mod Pump
pub mod Handlers
mod Tests
