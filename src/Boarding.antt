-- ===== src/Boarding.antt =====
-- backend/internal/boarding: passes, short codes and scans.
pub mod Models
pub mod Code
pub mod Limiter
pub mod Token
pub mod PassStore
pub mod Scan
pub mod Issue
mod Tests
