-- ===== src/Stops.antt =====
-- backend/internal/stops: a commuter's request to be picked up at a stop.
pub mod Models
pub mod Match
pub mod Store
pub mod Loading
pub mod Handlers
mod Tests
