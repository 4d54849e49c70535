-- ===== src/Wispist.antt =====
-- wispist/: the embeddable backend engine.
pub mod Types
pub mod Declaration
pub mod Authorization
pub mod Limiter
pub mod Hub
pub mod Limits
pub mod Cursor
pub mod Json
pub mod Sqlite
