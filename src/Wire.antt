-- ===== src/Wire.antt =====
-- The fields of dcrd's package `wire` that the program reads, and what else of dcrd it calls: the
-- kind of a transaction, its hash, and the addresses that a script pays to. Words are bit patterns,
-- byte slices are lists of numbers below 2 ^ 8.
use dcrros.Prelude.{ℕ, String, Bool, List}
use dcrros.BackendDb.{OutPoint}

pub record TxIn : Type 0 where
  pub previous_out_point : OutPoint
  pub sequence : ℕ
  pub value_in : ℕ
  pub block_height : ℕ
  pub block_index : ℕ
  pub signature_script : List ℕ

pub record TxOut : Type 0 where
  pub value : ℕ
  pub version : ℕ
  pub pk_script : List ℕ

pub record MsgTx : Type 0 where
  pub version : ℕ
  pub tx_in : List TxIn
  pub tx_out : List TxOut
  pub lock_time : ℕ
  pub expiry : ℕ

pub record BlockHeader : Type 0 where
  pub version : ℕ
  pub prev_block : ℕ
  pub vote_bits : ℕ
  pub height : ℕ

pub record MsgBlock : Type 0 where
  pub header : BlockHeader
  pub transactions : List MsgTx
  pub stransactions : List MsgTx

-- The kinds of stake.DetermineTxType.
pub data TxType : Type 0 where
  regular sstx ssgen ssrtx tadd tspend treasury_base : TxType

-- wire.TxTreeRegular and wire.TxTreeStake
abbrev pub tx_tree_regular : ℕ
tx_tree_regular = 0

abbrev pub tx_tree_stake : ℕ
tx_tree_stake = 1

-- What the program calls in dcrd, at fixed chain parameters. `extract_addrs` says whether a script
-- is of a standard type, and gives the texts of its addresses.
pub record Dcrd : Type 0 where
  pub tx_hash : MsgTx → ℕ
  pub determine_tx_type : MsgTx → TxType
  pub extract_addrs : ℕ → List ℕ → Bool × List String
