-- ===== src/Types/Tests.antt =====
-- The sample block, run over with a callback that lists the operations.
use dcrros.Prelude.{ℕ, ◌+◌, ◌≡◌, ◌≢◌, ◌≤◌, refl, sym, ap, none, some, List, [], ◌∷◌, arith}
use mathlib.Core.Path.{subst}
use dcrros.Prelude.Lists.{length}
use dcrros.Prelude.Maps.{Map, lookup}
use dcrros.Prelude.Words.{add64}
use dcrros.Prelude.Results.{Action, ok}
use dcrros.BackendDb.{Error, OutPoint, outpoint_comparable}
use dcrros.Types.Ops.{OpStatus}
use dcrros.Types.Block.{
  PrevOutput, Op, vote_bits_approves_parent, tx_flags, prev_outpoints, apply_txs, iterate_block_ops,
}
use dcrros.Types.Address.{dcr_pk_script_to_account_addr}
use dcrros.Types.Block.Amounts.{counts, block_net}
use dcrros.Types.Samples.{dcrd, table, parent, child, fetch, fetch-table}
use dcrros.Types.Block.Whole.{iterate_block_ops-net}
use dcrros.Types.Block.Reversal.{apply_txs-reversed}
use dcrros.Types.Block.Returns.{iterate_block_ops_returns}

abbrev list_op : Op → Action Error (List Op) (Unit {0})
list_op op ops = (ok tt, op ∷ ops)

-- The amounts of the operations of Dsa.
abbrev balance : List Op → ℕ
balance [] = 0
balance (op ∷ ops) = balance ops + counts "Dsa" op.account op.amount

abbrev listed : List Op
listed = (iterate_block_ops dcrd list_op fetch child (some parent) []).1

-- Three operations of the parent, reversed, and three of the block.
length-listed : length listed ≡ 6
unfolding iterate_block_ops vote_bits_approves_parent tx_flags dcr_pk_script_to_account_addr lookup
length-listed = refl

six_listed : 6 ≤ length listed
six_listed = subst (λ n. 6 ≤ n) (sym length-listed) (omega arith)

list_op-balance :
    (op : Op) (s s' : List Op)
    → list_op op s ≡ (ok tt, s')
    → add64 (balance s') 0 ≡ add64 (balance s) (counts "Dsa" op.account op.amount)
list_op-balance op s s' e =
    subst (λ ops. add64 (balance ops) 0 ≡ add64 (balance s) (counts "Dsa" op.account op.amount))
      (ap (λ r. r.1) e) (omega arith)

fetch-balance :
    (os : List OutPoint) (s s' : List Op) (m : Map OutPoint PrevOutput)
    → fetch os s ≡ (ok m, s')
    → (balance s' ≡ balance s)
      × ((o : OutPoint) (p : PrevOutput) → lookup o m ≡ some p → lookup o table ≡ some p)
fetch-balance os s s' m e = let f = fetch-table os s s' m e in (ap balance f.0, f.1)

iterate_block_ops_returns_example :
    (iterate_block_ops dcrd list_op fetch child (some parent) []).0 ≡ ok tt
unfolding vote_bits_approves_parent tx_flags prev_outpoints lookup
iterate_block_ops_returns_example =
    iterate_block_ops_returns dcrd list_op fetch (λ o. lookup o table ≢ none) (λ op s. refl)
      (λ os s known. known) child (some parent) [] (tt, (((λ e. cc), tt), tt))
      (tt, (((λ e. cc), tt), tt)) tt

-- The run returned with the list.
run-listed : iterate_block_ops dcrd list_op fetch child (some parent) [] ≡ (ok tt, listed)
unfolding vote_bits_approves_parent tx_flags prev_outpoints lookup
run-listed =
    ap (λ r. (r, listed))
      (iterate_block_ops_returns dcrd list_op fetch (λ o. lookup o table ≢ none) (λ op s. refl)
        (λ os s known. known) child (some parent) [] (tt, (((λ e. cc), tt), tt))
        (tt, (((λ e. cc), tt), tt)) tt)

iterate_block_ops-net_example :
    add64 (balance listed) 0
    ≡ add64 0 (block_net dcrd (λ o. lookup o table) "Dsa" child (some parent))
iterate_block_ops-net_example =
    iterate_block_ops-net dcrd list_op fetch (λ o. lookup o table) "Dsa" balance list_op-balance
      fetch-balance child (some parent) [] listed run-listed

abbrev after : OpStatus → List Op → List Op
after st ops = (apply_txs dcrd list_op fetch 0 st parent.transactions ops).1

apply_txs-reversed_example :
    add64 (balance (after OpStatus.reversed (after OpStatus.success []))) 0 ≡ 0
unfolding apply_txs vote_bits_approves_parent tx_flags dcr_pk_script_to_account_addr lookup
apply_txs-reversed_example =
    apply_txs-reversed dcrd list_op fetch (λ o. lookup o table) "Dsa" balance list_op-balance
      fetch-balance 0 parent.transactions [] (after OpStatus.success []) (after OpStatus.success [])
      (after OpStatus.reversed (after OpStatus.success [])) refl refl refl
