-- ===== src/Brownfield.antt =====
-- The brownfield pipeline of packages/core/src/brownfield.
pub mod Dag
pub mod Slug
mod Tests
