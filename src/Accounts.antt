-- ===== src/Accounts.antt =====
-- internal/auth/ and the tables of internal/store/ that hold users, sessions and setup tokens.
pub mod Types
pub mod Names
pub mod Tables
pub mod Users
pub mod Setup
pub mod Sessions
pub mod Service
pub mod Management
pub mod Rows
pub mod Sound
pub mod Kept
pub mod Calls
pub mod Runs
pub mod Tokens
pub mod Lifetime
pub mod SignIn
pub mod Revoked
