-- ===== src/Api/Safety.antt =====
-- What the handlers do to the database.
pub mod Rules
pub mod Queued
pub mod Arguments
pub mod Asks
pub mod Settling
pub mod Queueing
pub mod Reading
pub mod Sending
pub mod Settled
pub mod Gate
pub mod Accepted
pub mod Pages
pub mod Sent
pub mod Login
