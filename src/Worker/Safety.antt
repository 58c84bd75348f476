-- ===== src/Worker/Safety.antt =====
-- Every signing worker keeps the invariant of the database: the triples of their shared steps, and
-- of the workers themselves in the modules below.
pub mod Steps
pub mod Signers
pub mod Pools
pub mod Deploys
pub mod Dispatch
pub mod Keeps
pub mod Recovery
pub mod Unlocker
pub mod Unlocks
