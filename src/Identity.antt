-- ===== src/Identity.antt =====
-- backend/internal/identity: users' roles and profiles.
pub mod Models
pub mod Repo
pub mod Tokens
pub mod Middleware
pub mod Handlers
mod Tests
