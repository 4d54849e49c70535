-- ===== src/Links.antt =====
-- internal/shortlink/service.go, internal/store/shortlinks.go and internal/store/public_names.go:
-- short links, the names that they and sites share, and their visits.
pub mod Types
pub mod Rules
pub mod Tables
pub mod Names
pub mod Store
pub mod Visits
pub mod Service
pub mod Counting
pub mod Keyed
pub mod Stored
pub mod Totals
pub mod Owners
pub mod Owned
pub mod Held
pub mod Slugs
pub mod Runs
