-- ===== src/Sync.antt =====
-- backend/sync.go and backend/svc_account.go: what the operations of a block do to the utxo index,
-- when the block is connected and when it is rolled back.
pub mod Undo
pub mod RollBack
pub mod Links
pub mod Forks
pub mod Reorg
pub mod Process
pub mod Switch
pub mod Handlers
pub mod Mem
pub mod Stuck
mod Tests
mod Reorgs
use dcrros.Prelude.{ℕ, ◌%◌, ◌^◌, Option, none, some}
use dcrros.Prelude.Words.{neg64}
use dcrros.Prelude.Results.{Action, throw, crash}
use dcrros.BackendDb.{Error, plain, OutPoint}
use dcrros.BackendDb.UtxoIndex.{UtxoIndex}
use dcrros.Wire.{TxIn}
use dcrros.Types.Ops.{OpType, OpStatus}
use dcrros.Types.Block.{Op}

-- wire.OutPoint{Hash: op.TxHash, Index: uint32(op.IOIndex), Tree: op.Tree}
abbrev pub created : Op → OutPoint
created op = record { hash = op.tx_hash; index = op.io_index % 2 ^ 32; tree = op.tree }

module _ {S : Type 0} (db : UtxoIndex S) where
  -- &op.In.PreviousOutPoint: a nil input panics.
  abbrev pub del_spent : Op → Option TxIn → Action Error S (Unit {0})
  del_spent op none = crash
  del_spent op (some in_) = db.del_utxo op.account in_.previous_out_point

  abbrev pub add_spent : Op → ℕ → Option TxIn → Action Error S (Unit {0})
  add_spent op amount none = crash
  add_spent op amount (some in_) = db.add_utxo op.account in_.previous_out_point amount

  -- The switch at the end of the callback of `preProcessAccountBlock`.
  abbrev pub connect_as : OpType → OpStatus → Op → Option TxIn → Action Error S (Unit {0})
  connect_as OpType.debit OpStatus.success op in_ = del_spent op in_
  connect_as OpType.debit OpStatus.reversed op in_ = add_spent op op.amount in_
  connect_as OpType.credit OpStatus.success op in_ = db.add_utxo op.account (created op) op.amount
  connect_as OpType.credit OpStatus.reversed op in_ = db.del_utxo op.account (created op)
  connect_as _ _ op in_ = throw (plain "unknown op type: %v and status: %v")

  unfoldable pub connect_op : Op → Action Error S (Unit {0})
  connect_op op = connect_as op.type op.status op op.in_

  -- The callback of `rollbackTip`.
  abbrev pub roll_back_as : OpType → OpStatus → Op → Option TxIn → Action Error S (Unit {0})
  roll_back_as OpType.debit OpStatus.success op in_ = add_spent op (neg64 op.amount) in_
  roll_back_as OpType.debit OpStatus.reversed op in_ = del_spent op in_
  roll_back_as OpType.credit OpStatus.success op in_ = db.del_utxo op.account (created op)
  roll_back_as OpType.credit OpStatus.reversed op in_ =
      db.add_utxo op.account (created op) (neg64 op.amount)
  roll_back_as _ _ op in_ = throw (plain "unknown op type: %v and status: %v")

  unfoldable pub roll_back_op : Op → Action Error S (Unit {0})
  roll_back_op op = roll_back_as op.type op.status op op.in_
