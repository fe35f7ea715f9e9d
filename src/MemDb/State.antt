-- ===== src/MemDb/State.antt =====
-- The state of the in-memory database (memdb.go): `MemDB`, and the `transaction` that collects
-- writes until `Update` commits them. Heights and amounts are int64 bit patterns.
use dcrros.Prelude.{ℕ, String, Bool, false, List, []}
use dcrros.Prelude.Maps.{Map}
use dcrros.Prelude.Results.{Action}
use dcrros.BackendDb.{Error, OutPoint}

pub record BalanceHeight : Type 0 where
  pub height : ℕ
  pub balance : ℕ

pub record ProcessedBlock : Type 0 where
  pub hash : ℕ
  pub accounts : List String

pub record Utxo : Type 0 where
  pub outp : OutPoint
  pub amt : ℕ

pub record Transaction : Type 0 where
  pub writable : Bool
  pub balances : Map String (List BalanceHeight)
  pub updated_block : Bool
  pub block_hash : ℕ
  pub block_height : ℕ
  pub processed_blocks : Map ℕ ProcessedBlock
  pub utxos : Map String (Map OutPoint ℕ)
  pub del_utxos : Map String (Map OutPoint (Unit {0}))

-- `closed` says that the map of balances is nil, as `Close` leaves it.
pub record MemDb : Type 0 where
  pub balances : Map String (List BalanceHeight)
  pub closed : Bool
  pub last_block_hash : ℕ
  pub last_height : ℕ
  pub processed_blocks : Map ℕ ProcessedBlock
  pub single_utxos : Map String Utxo
  pub few_utxos : Map String (List Utxo)
  pub utxos : Map String (Map OutPoint ℕ)

abbrev pub new_mem_db : MemDb
new_mem_db = record {
  balances = [];
  closed = false;
  last_block_hash = 0;
  last_height = 0;
  processed_blocks = [];
  single_utxos = [];
  few_utxos = [];
  utxos = [];
}

-- The transaction that `View` (false) or `Update` (true) starts.
abbrev pub new_transaction : Bool → Transaction
new_transaction w = record {
  writable = w;
  balances = [];
  updated_block = false;
  block_hash = 0;
  block_height = 0;
  processed_blocks = [];
  utxos = [];
  del_utxos = [];
}

-- What a call inside a transaction reads and writes.
pub record Conn : Type 0 where
  pub db : MemDb
  pub tx : Transaction

abbrev pub Call : Type 0 → Type 0
Call A = Action Error Conn A
