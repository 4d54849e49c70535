-- ===== src/Tests.antt =====
-- The properties at concrete inputs, and runs of the code.
mod Login
mod Sqlite
mod Engine
mod Updater
mod Access
mod Hub
mod Accounts
mod Links
mod Json
