-- ===== src/Types/Block/Mempool.antt =====
-- types/block.go: `txMetaToRosetta` and `MempoolTxToRosetta`.
use dcrros.Prelude.{ℕ, String, Option, none, some, List, [], ◌∷◌, ◌++◌, if◌then◌else◌}
use dcrros.Prelude.Maps.{Map}
use dcrros.Prelude.Words.{neg64}
use dcrros.Prelude.Results.{Action, Result, ok, err, panic, crash, modify}
use dcrros.BackendDb.{Error, OutPoint}
use dcrros.Wire.{MsgTx, TxType, Dcrd, tx_tree_regular, tx_tree_stake}
use dcrros.Types.Ops.{OpStatus}
use dcrros.Types.Block.{PrevOutput, Op, is_type, new_op, iterate_block_ops_in_tx}
use dcrros.Types.Block.Rosetta.{r_op}
use dcrros.Types.Errors.{GoError}
use dcrros.Types.Rosetta.{Value, Operation}
use dcrros.Types.Text.{append}

-- A Rosetta transaction, with the text in its identifier.
pub record Transaction : Type 0 where
  pub hash : String
  pub operations : List Operation
  pub metadata : Map String Value

abbrev pub basic_metadata : MsgTx → Map String Value → Map String Value
basic_metadata tx rest =
    ("version", Value.uint16 tx.version)
    ∷ ("expiry", Value.uint32 tx.expiry)
    ∷ ("locktime", Value.uint32 tx.lock_time)
    ∷ rest

-- With the text of the transaction's hash, and of the block's, if one is given.
unfoldable pub tx_meta_to_rosetta : MsgTx → String → Option String → Transaction
tx_meta_to_rosetta tx tx_hash none = record {
  hash = tx_hash;
  operations = [];
  metadata = basic_metadata tx [];
}
tx_meta_to_rosetta tx tx_hash (some block_hash) = record {
  hash = append block_hash (String.◌∷◌ ":" tx_hash);
  operations = [];
  metadata = basic_metadata tx (("original_tx_hash", Value.text tx_hash) ∷ []);
}

abbrev pub reported : Result Error Op × Transaction → Result Error Transaction
reported (ok op, tx) = ok tx
reported (err e, tx) = err e
reported (panic, tx) = panic

abbrev pub add_reported : Result GoError Operation → Action Error Transaction (Unit {0})
add_reported (ok op) = modify (λ tx. record tx { operations = tx.operations ++ op ∷ [] })
add_reported _ = crash

module _ (hash_text : ℕ → String) (out_point_text : OutPoint → String) (dcrd : Dcrd) where
  -- rtx.Operations = append(rtx.Operations, op.ROp())
  unfoldable pub report_op : Op → Action Error Transaction (Unit {0})
  report_op op = add_reported (r_op hash_text out_point_text op)

  -- The operation that the iteration starts from; its index of the transaction is -1.
  unfoldable pub mempool_op : MsgTx → Op
  mempool_op tx =
      let is_regular = is_type (dcrd.determine_tx_type tx) TxType.regular in
      record (new_op (if is_regular then tx_tree_regular else tx_tree_stake) OpStatus.success) {
        tx = tx;
        tx_hash = dcrd.tx_hash tx;
        tx_index = neg64 1;
      }

  -- `MempoolTxToRosetta`
  unfoldable pub mempool_tx_to_rosetta :
      (List OutPoint → Action Error Transaction (Map OutPoint PrevOutput))
      → MsgTx
      → Result Error Transaction
  mempool_tx_to_rosetta fetch tx = reported (
      iterate_block_ops_in_tx dcrd report_op fetch (mempool_op tx)
        (tx_meta_to_rosetta tx (hash_text (dcrd.tx_hash tx)) none))
