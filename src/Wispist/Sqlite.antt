-- ===== src/Wispist/Sqlite.antt =====
-- wispist/sqlite/store.go and admin.go: the document store over four SQL tables.
pub mod Tables
pub mod Steps
pub mod Store
pub mod Admin
pub mod Clearing
pub mod Selected
pub mod Cleared
pub mod Outcome
pub mod Rows
pub mod Documents
pub mod Writers
pub mod Quota
pub mod Keys
pub mod Replay
