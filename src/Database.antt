-- ===== src/Database.antt =====
-- The Postgres database as the program sees it: its tables, and what a statement does to them.
pub mod Schema
pub mod Session
pub mod Ensures
pub mod Healthy
