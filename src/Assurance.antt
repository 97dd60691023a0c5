-- ===== src/Assurance.antt =====
-- The assurance of a run: the labels of data, and the records of packages/schema/src/assurance.ts.
pub mod Labels
pub mod Contract
pub mod Plan
pub mod Evidence
