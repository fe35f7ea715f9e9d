-- ===== src/Types/Block/Reversal.antt =====
-- types/block.go: transactions of a block that a later block disapproves.
use dcrros.Prelude.{ℕ, ◌+◌, ◌≡◌, refl, String, Option, some, List, [], ◌∷◌, arith}
use dcrros.Prelude.Maps.{Map, lookup}
use dcrros.Prelude.Words.{add64}
use dcrros.Prelude.Results.{Action, ok}
use dcrros.BackendDb.{Error, OutPoint, outpoint_comparable}
use dcrros.Wire.{MsgTx, Dcrd}
use dcrros.Types.Ops.{OpStatus}
use dcrros.Types.Block.{PrevOutput, Op, apply_txs}
use dcrros.Types.Block.Amounts.{counts, tx_net, txs_net}
use dcrros.Types.Block.Whole.{apply_txs-net}

module _ (dcrd : Dcrd) (prev_of : OutPoint → Option PrevOutput) (a : String) where
  tx_net-reversed :
      (tree i : ℕ) (tx : MsgTx)
      → add64
          (tx_net dcrd prev_of a tree OpStatus.success i tx)
          (tx_net dcrd prev_of a tree OpStatus.reversed i tx)
        ≡ 0
  unfolding tx_net
  tx_net-reversed tree i tx = omega arith

  txs_net-reversed :
      (tree i : ℕ) (txs : List MsgTx)
      → add64
          (txs_net dcrd prev_of a tree OpStatus.success i txs)
          (txs_net dcrd prev_of a tree OpStatus.reversed i txs)
        ≡ 0
  unfolding txs_net
  txs_net-reversed tree i [] = refl
  txs_net-reversed tree i (tx ∷ txs) =
      omega (arith, tx_net-reversed tree i tx, txs_net-reversed tree (i + 1) txs)

module _ {S : Type 0} (dcrd : Dcrd) (apply_op : Op → Action Error S (Unit {0}))
    (fetch : List OutPoint → Action Error S (Map OutPoint PrevOutput))
    (prev_of : OutPoint → Option PrevOutput) (a : String) (measure : S → ℕ)
    (adds : (op : Op) (s s' : S)
      → apply_op op s ≡ (ok tt, s')
      → add64 (measure s') 0 ≡ add64 (measure s) (counts a op.account op.amount))
    (fetches : (os : List OutPoint) (s s' : S) (m : Map OutPoint PrevOutput)
      → fetch os s ≡ (ok m, s')
      → (measure s' ≡ measure s)
        × ((o : OutPoint) (p : PrevOutput) → lookup o m ≡ some p → prev_of o ≡ some p)) where
  -- If transactions are run over and, later, from a state with the same balance, run over as
  -- reversed ones, and both runs return, then the balance of an account that the callback keeps is
  -- what it was before, as an int64.
  pub apply_txs-reversed :
      (tree : ℕ) (txs : List MsgTx) (s s' t t' : S)
      → apply_txs dcrd apply_op fetch tree OpStatus.success txs s ≡ (ok tt, s')
      → add64 (measure t) 0 ≡ add64 (measure s') 0
      → apply_txs dcrd apply_op fetch tree OpStatus.reversed txs t ≡ (ok tt, t')
      → add64 (measure t') 0 ≡ add64 (measure s) 0
  apply_txs-reversed tree txs s s' t t' forth same back = omega (
    arith,
    apply_txs-net dcrd apply_op fetch prev_of a measure adds fetches tree OpStatus.success txs s s'
        forth,
    apply_txs-net dcrd apply_op fetch prev_of a measure adds fetches tree OpStatus.reversed txs t t'
        back,
    txs_net-reversed dcrd prev_of a tree 0 txs,
  )
