-- ===== src/MemDb.antt =====
-- backend/internal/memdb/memdb.go: the in-memory database.
pub mod State
pub mod Search
pub mod Balances
pub mod Rollback
pub mod Utxos
pub mod Commit
pub mod Lookup
pub mod History
pub mod Chain
pub mod Buckets
pub mod Slices
pub mod Merge
pub mod Remove
pub mod CommitView
pub mod Kept
pub mod Undo
pub mod Stored
pub mod Ledger
pub mod Index
pub mod Readded
mod Tests
