-- ===== src/Governance.antt =====
-- The governance boundary model of packages/schema/src/governance.ts.
pub mod Records
pub mod Overlap
pub mod Rules
pub mod Frames
mod Tests
