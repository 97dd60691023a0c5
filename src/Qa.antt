-- ===== src/Qa.antt =====
-- The scoring of a spec's tests: packages/qa/src and the score's schema in
-- packages/schema/src/schemas.ts.
pub mod Tags
pub mod Titles
pub mod Score
pub mod Outcomes
pub mod Scoring
pub mod Criteria
pub mod Checklist
pub mod Pass
pub mod Bounds
pub mod Accepted
mod Tests
