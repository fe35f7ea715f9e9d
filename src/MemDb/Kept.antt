-- ===== src/MemDb/Kept.antt =====
-- The merge of the utxos (memdb.go) leaves the balances, the processed blocks and the tip alone.
use dcrros.Prelude.{ℕ, String, ◌≡◌, refl, ap, ◌∙◌, Option, List, [], ◌∷◌, arith}
use dcrros.Prelude.Maps.{Map, IsUnique}
use dcrros.Prelude.Keys.{string_comparable}
use dcrros.BackendDb.{OutPoint}
use dcrros.MemDb.State.{BalanceHeight, ProcessedBlock, Utxo, MemDb, Conn}
use dcrros.MemDb.Balances.{slice_at}
use dcrros.MemDb.History.{history, slice-merge_balances}
use dcrros.MemDb.Commit.{
  merge_account, merge_utxos, store_single, store_few, store_many, remove_many, remove_single,
  remove_from_few, remove_one, remove_each, remove_utxos, merge_blocks, commit,
}

-- The fields that the chain of blocks stands in.
pub record ChainState : Type 0 where
  pub balances : Map String (List BalanceHeight)
  pub processed : Map ℕ ProcessedBlock
  pub last_hash : ℕ
  pub last_height : ℕ

abbrev pub chain_state : MemDb → ChainState
chain_state db = record {
  balances = db.balances;
  processed = db.processed_blocks;
  last_hash = db.last_block_hash;
  last_height = db.last_height;
}

chain_state-merge_account :
    (a : String) (us : Map OutPoint ℕ) (db : MemDb)
    → chain_state (merge_account a us db) ≡ chain_state db
unfolding merge_account store_single store_few store_many
chain_state-merge_account a us db = ground arith

chain_state-merge_utxos :
    (m : Map String (Map OutPoint ℕ)) (db : MemDb) → chain_state (merge_utxos m db) ≡ chain_state db
unfolding merge_utxos
chain_state-merge_utxos [] db = refl
chain_state-merge_utxos ((a, us) ∷ m) db =
    chain_state-merge_account a us (merge_utxos m db) ∙ chain_state-merge_utxos m db

chain_state-remove_one :
    (a : String) (first : Option Utxo) (o : OutPoint) (db : MemDb)
    → chain_state (remove_one a first o db) ≡ chain_state db
unfolding remove_one remove_many remove_single remove_from_few
chain_state-remove_one a first o db = ground arith

chain_state-remove_each :
    (a : String) (first : Option Utxo) (dels : Map OutPoint (Unit {0})) (db : MemDb)
    → chain_state (remove_each a first dels db) ≡ chain_state db
unfolding remove_each
chain_state-remove_each a first [] db = refl
chain_state-remove_each a first ((o, d) ∷ dels) db =
    chain_state-remove_one a first o (remove_each a first dels db)
    ∙ chain_state-remove_each a first dels db

chain_state-remove_utxos :
    (m : Map String (Map OutPoint (Unit {0}))) (db : MemDb)
    → chain_state (remove_utxos m db) ≡ chain_state db
unfolding remove_utxos
chain_state-remove_utxos [] db = refl
chain_state-remove_utxos ((a, dels) ∷ m) db =
    chain_state-remove_each a _ dels (remove_utxos m db) ∙ chain_state-remove_utxos m db

-- A commit merges the chain of the transaction.
pub chain_state-commit : (c : Conn) → chain_state (commit c) ≡ chain_state (merge_blocks c.tx c.db)
unfolding commit
chain_state-commit c =
    chain_state-remove_utxos c.tx.del_utxos (merge_utxos c.tx.utxos (merge_blocks c.tx c.db))
    ∙ chain_state-merge_utxos c.tx.utxos (merge_blocks c.tx c.db)

-- The stored history after the commit is the history that the transaction showed.
pub history-commit :
    (c : Conn) (a : String) → IsUnique c.tx.balances → slice_at (commit c).balances a ≡ history c a
history-commit c a u =
    ap (λ (s : ChainState). slice_at s.balances a) (chain_state-commit c)
    ∙ unfold merge_blocks in slice-merge_balances c.db.balances c.tx.balances a u
