-- ===== src/Cmd.antt =====
-- The commands of the repository (cmd).
pub mod Unlocker
pub mod Service
pub mod ServiceToken
