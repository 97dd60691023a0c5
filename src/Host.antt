-- ===== src/Host.antt =====
-- The classifier of private and local hosts: packages/schema/src/host.ts.
pub mod Ipv4
pub mod Literals
pub mod Classify
pub mod Words
pub mod Lacking
pub mod Colons
pub mod Private
mod Tests
