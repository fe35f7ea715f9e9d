-- ===== src/Sync/Stuck.antt =====
-- backend/sync.go: the loop of `rollbackDbChain` that rolls back down to the height of the target, on
-- the in-memory database (backend/internal/memdb/memdb.go) without the block of its tip.
use dcrros.Prelude.{ℕ, ◌≡◌, false, none}
use dcrros.Prelude.Maps.{lookup}
use dcrros.Prelude.Keys.{nat_comparable}
use dcrros.MemDb.State.{Conn}
use dcrros.MemDb.Balances.{tip_of}

-- A transaction whose tip has no processed block in the database, such as one after an Update that
-- rolled the tip back and then failed.
pub record IsLost (t : ℕ × ℕ) (c : Conn) : Type 0 where
  pub fresh : c.tx.updated_block ≡ false → c.tx.block_height ≡ 0
  pub at_tip : tip_of c ≡ t
  pub gone : lookup t.1 c.db.processed_blocks ≡ none
