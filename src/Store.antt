-- ===== src/Store.antt =====
-- internal/store: the tables of Postgres, and the queries that the Go code sends to them.
pub mod Types
pub mod Tables
pub mod Results
pub mod Queries
pub mod Selects
pub mod Unlocks
pub mod Sound
pub mod NonceOrder
pub mod Statuses
