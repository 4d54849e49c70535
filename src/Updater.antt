-- ===== src/Updater.antt =====
-- internal/updater/ and internal/updatepolicy/.
pub mod Policy
pub mod Manager
pub mod Version
