-- ===== src/Routing.antt =====
-- backend/internal/routing: routes, fares and the search for a ride.
pub mod Models
pub mod Repo
pub mod Geometry
pub mod Clearing
pub mod Decimate
pub mod Handlers
pub mod Graph
pub mod Best
mod Tests
