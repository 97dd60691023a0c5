-- ===== src/Json.antt =====
-- `parseStrictJson` of packages/persist/src/strict-json.ts: the reader that checks a document
-- before `JSON.parse` sees it.
pub mod Result
pub mod Surrogates
pub mod Strings
pub mod Numbers
pub mod Reader
pub mod Grammar
pub mod Scans
pub mod Steps
pub mod Sound
pub mod Accepts
pub mod Canonical
mod Tests
