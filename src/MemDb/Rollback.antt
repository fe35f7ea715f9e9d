-- ===== src/MemDb/Rollback.antt =====
-- `RollbackTip` of the in-memory database (memdb.go). It writes the balances and the processed
-- blocks of the database itself, before the transaction commits.
use dcrros.Prelude.{ℕ, String, true, not, ◌||◌, none, some, List, [], ◌∷◌, nat_eq, if◌then◌else◌}
use dcrros.Prelude.Maps.{Map, lookup, insert, erase}
use dcrros.Prelude.Lists.{drop_last, last?}
use dcrros.Prelude.Words.{sub64}
use dcrros.Prelude.Keys.{nat_comparable, string_comparable}
use dcrros.Prelude.Results.{pure, crash, gets, throw_if, ◌>>=◌, ◌>>◌, modify}
use dcrros.BackendDb.{plain, not_tip}
use dcrros.MemDb.State.{BalanceHeight, ProcessedBlock, MemDb, Conn, Call}
use dcrros.MemDb.Balances.{slice_at}

-- One round of the loop over the accounts of the old tip.
unfoldable pub rollback_account :
    ℕ → String → Map String (List BalanceHeight) → Map String (List BalanceHeight)
rollback_account height account balances =
    let bals = slice_at balances account in
    elim (last? bals) [
      | none ↦ balances
      | some b ↦
          if nat_eq b.height height then insert account (drop_last bals) balances else balances
    ]

unfoldable pub rollback_accounts :
    ℕ → List String → Map String (List BalanceHeight) → Map String (List BalanceHeight)
rollback_accounts height [] balances = balances
rollback_accounts height (account ∷ accounts) balances =
    rollback_accounts height accounts (rollback_account height account balances)

-- The database after the balances and the block of the old tip are removed.
unfoldable pub without_tip : ℕ → ProcessedBlock → MemDb → MemDb
unfolding rollback_accounts
without_tip height old_tip db = record db {
  balances = rollback_accounts height old_tip.accounts db.balances;
  processed_blocks = erase height db.processed_blocks;
}

-- The tip that the call is checked against. A transaction height of 0 counts as no height.
unfoldable pub rollback_tip_of : Conn → ℕ × ℕ
rollback_tip_of c =
    if nat_eq c.tx.block_height 0
    then (c.db.last_block_hash, c.db.last_height)
    else (c.tx.block_hash, c.tx.block_height)

-- The previous block becomes the tip; if it is not stored, its hash is read through nil.
unfoldable pub move_tip : ℕ → Call (Unit {0})
move_tip height c = elim (lookup (sub64 height 1) c.db.processed_blocks) [
  | none ↦ crash c
  | some prev ↦ pure tt record c {
    tx = record c.tx {
      block_hash = prev.hash;
      block_height = sub64 height 1;
      updated_block = true;
    };
  }
]

unfoldable pub rollback_tip : ℕ → ℕ → Call (Unit {0})
unfolding without_tip rollback_tip_of move_tip
rollback_tip block_hash height = do
  tx ← gets (λ c. c.tx)
  throw_if (not tx.writable) (plain "unwritable tx")
  tip ← gets rollback_tip_of
  throw_if (not (nat_eq tip.0 block_hash) || not (nat_eq tip.1 height)) not_tip
  processed ← gets (λ c. c.db.processed_blocks)
  elim (lookup height processed) [
    | none ↦ pure tt
    | some old_tip ↦ do
      modify (λ c. record c { db = without_tip height old_tip c.db })
      move_tip height
  ]
