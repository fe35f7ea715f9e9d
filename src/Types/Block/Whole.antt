-- ===== src/Types/Block/Whole.antt =====
-- A block of types/block.go: what its operations do to one account.
use dcrros.Prelude.{
  ℕ, ◌+◌, ◌≡◌, refl, ◌∙◌, String, Option, none, some, List, [], ◌∷◌, arith, inl, inr, Bool-cases,
}
use mathlib.Core.Path.{subst}
use dcrros.Prelude.Maps.{Map, lookup}
use dcrros.Prelude.Words.{add64}
use dcrros.Prelude.Results.{Action, Result, ok, err, panic, pure, continue, ◌>>◌}
use dcrros.BackendDb.{Error, OutPoint, outpoint_comparable}
use dcrros.Wire.{MsgTx, MsgBlock, Dcrd, tx_tree_regular, tx_tree_stake}
use dcrros.Types.Ops.{OpStatus}
use dcrros.Types.Block.{
  PrevOutput, Op, iterate_block_ops_in_tx, apply_txs_from, apply_txs, new_op, approves_parent,
  reverse_parent, iterate_block_ops,
}
use dcrros.Types.Block.Amounts.{counts, tx_net, txs_net, parent_net, block_net}
use dcrros.Types.Block.Tx.{Grow, Grow-in_tx}
use dcrros.Types.Block.Net.{Keeps}

-- A callback that adds the amounts of the account's operations to a measure of its state, and a
-- source of previous outputs that leaves it alone and gives true ones.
module _ {S : Type 0} (dcrd : Dcrd) (apply_op : Op → Action Error S (Unit {0}))
    (fetch : List OutPoint → Action Error S (Map OutPoint PrevOutput))
    (prev_of : OutPoint → Option PrevOutput) (a : String) (measure : S → ℕ)
    (adds : (op : Op) (s s' : S)
      → apply_op op s ≡ (ok tt, s')
      → add64 (measure s') 0 ≡ add64 (measure s) (counts a op.account op.amount))
    (fetches : (os : List OutPoint) (s s' : S) (m : Map OutPoint PrevOutput)
      → fetch os s ≡ (ok m, s')
      → (measure s' ≡ measure s)
        × ((o : OutPoint) (p : PrevOutput) → lookup o m ≡ some p → prev_of o ≡ some p)) where
  -- A run over some of a tree's transactions, which gives back an operation of the same tree and
  -- status.
  abbrev Sums : Op → ℕ → ℕ → Result Error Op × S → Type 0
  Sums op m x (ok op', s') =
      ((op'.status ≡ op.status) × (op'.tree ≡ op.tree)) × (add64 (measure s') 0 ≡ add64 m x)
  Sums op m x (err e, s') = Unit
  Sums op m x (panic, s') = Unit

  Sums-bind :
      (op : Op) (m x y : ℕ) (r : Result Error Op × S) (g : Op → Action Error S Op)
      → Grow dcrd apply_op fetch prev_of a measure adds fetches op m x r
      → ((op' : Op) (s' : S) → Keeps op op' → Sums op' (measure s') y (g op' s'))
      → Sums op m (x + y) (continue r.0 g r.1)
  Sums-bind op m x y (ok op', s') g h k = then_on (g op' s') (k op' s' h.0)
    where
      then_on : (q : Result Error Op × S) → Sums op' (measure s') y q → Sums op m (x + y) q
      then_on (ok op'', s'') q = ((q.0.0 ∙ h.0.0, q.0.1 ∙ h.0.1.1), omega (arith, q.1, h.1))
      then_on (err e, s'') q = tt
      then_on (panic, s'') q = tt
  Sums-bind op m x y (err e, s') g h k = tt
  Sums-bind op m x y (panic, s') g h k = tt

  Sums-apply_txs_from :
      (i : ℕ) (txs : List MsgTx) (op : Op) (s : S)
      → Sums op
          (measure s)
          (txs_net dcrd prev_of a op.tree op.status i txs)
          (apply_txs_from dcrd apply_op fetch i txs op s)
  unfolding apply_txs_from txs_net
  Sums-apply_txs_from i [] op s = ((refl, refl), omega arith)
  Sums-apply_txs_from i (tx ∷ txs) op s =
      let op₀ = record op { tx = tx; tx_hash = dcrd.tx_hash tx; tx_index = i; op_index = 0 } in
      let net : ℕ → OpStatus → ℕ = λ tree st. txs_net dcrd prev_of a tree st (i + 1) txs in
      let g = apply_txs_from dcrd apply_op fetch (i + 1) txs in
      Sums-bind op₀ (measure s) (tx_net dcrd prev_of a op.tree op.status i tx)
        (net op.tree op.status) (iterate_block_ops_in_tx dcrd apply_op fetch op₀ s) g
        (Grow-in_tx dcrd apply_op fetch prev_of a measure adds fetches op₀ s)
        (λ op' s' k.
          subst (λ st. Sums op' (measure s') (net op.tree st) (g op' s')) k.0
            (subst (λ tree. Sums op' (measure s') (net tree op'.status) (g op' s')) k.1.1
              (Sums-apply_txs_from (i + 1) txs op' s')))

  -- If the call returns, the measure grew by the number.
  abbrev Total : ℕ → ℕ → Result Error (Unit {0}) × S → Type 0
  Total m x (ok u, s') = add64 (measure s') 0 ≡ add64 m x
  Total m x (err e, s') = Unit
  Total m x (panic, s') = Unit

  Total-then :
      (m x y : ℕ) (r : Result Error (Unit {0}) × S) (g : Action Error S (Unit {0}))
      → Total m x r
      → ((s' : S) → Total (measure s') y (g s'))
      → Total m (x + y) (continue r.0 (λ _. g) r.1)
  Total-then m x y (ok u, s') g h k = then_on (g s') (k s')
    where
      then_on : (q : Result Error (Unit {0}) × S) → Total (measure s') y q → Total m (x + y) q
      then_on (ok u, s'') q = omega (arith, q, h)
      then_on (err e, s'') q = tt
      then_on (panic, s'') q = tt
  Total-then m x y (err e, s') g h k = tt
  Total-then m x y (panic, s') g h k = tt

  Total-apply_txs :
      (tree : ℕ) (st : OpStatus) (txs : List MsgTx) (s : S)
      → Total
          (measure s)
          (txs_net dcrd prev_of a tree st 0 txs)
          (apply_txs dcrd apply_op fetch tree st txs s)
  unfolding apply_txs
  Total-apply_txs tree st txs s =
      on (apply_txs_from dcrd apply_op fetch 0 txs (new_op tree st) s)
        (Sums-apply_txs_from 0 txs (new_op tree st) s)
    where
      on :
          (r : Result Error Op × S)
          → Sums (new_op tree st) (measure s) (txs_net dcrd prev_of a tree st 0 txs) r
          → Total
              (measure s)
              (txs_net dcrd prev_of a tree st 0 txs)
              (continue r.0 (λ _. pure tt) r.1)
      on (ok op', s') h = h.1
      on (err e, s') h = tt
      on (panic, s') h = tt

  pub apply_txs-net :
      (tree : ℕ) (st : OpStatus) (txs : List MsgTx) (s s' : S)
      → apply_txs dcrd apply_op fetch tree st txs s ≡ (ok tt, s')
      → add64 (measure s') 0 ≡ add64 (measure s) (txs_net dcrd prev_of a tree st 0 txs)
  apply_txs-net tree st txs s s' e =
      subst (Total (measure s) (txs_net dcrd prev_of a tree st 0 txs)) e
        (Total-apply_txs tree st txs s)

  Total-reverse_parent :
      (b : MsgBlock) (prev : Option MsgBlock) (s : S)
      → Total
          (measure s)
          (parent_net dcrd prev_of a b prev)
          (reverse_parent dcrd apply_op fetch b prev s)
  unfolding parent_net
  Total-reverse_parent b none s = elim (Bool-cases (approves_parent b)) [
    | inl t ↦ rw t (omega arith)
    | inr t ↦ rw t tt
  ]
  Total-reverse_parent b (some prev) s = elim (Bool-cases (approves_parent b)) [
    | inl t ↦ rw t (omega arith)
    | inr t ↦ rw t (Total-apply_txs tx_tree_regular OpStatus.reversed prev.transactions s)
  ]

  Total-iterate_block_ops :
      (b : MsgBlock) (prev : Option MsgBlock) (s : S)
      → Total
          (measure s)
          (block_net dcrd prev_of a b prev)
          (iterate_block_ops dcrd apply_op fetch b prev s)
  unfolding iterate_block_ops block_net
  Total-iterate_block_ops b prev s =
      let regular : ℕ = txs_net dcrd prev_of a tx_tree_regular OpStatus.success 0 b.transactions in
      let stake : ℕ = txs_net dcrd prev_of a tx_tree_stake OpStatus.success 0 b.stransactions in
      let own = apply_txs dcrd apply_op fetch tx_tree_regular OpStatus.success b.transactions in
      let staked = apply_txs dcrd apply_op fetch tx_tree_stake OpStatus.success b.stransactions in
      Total-then (measure s) (parent_net dcrd prev_of a b prev) (regular + stake)
        (reverse_parent dcrd apply_op fetch b prev s) (own >> staked)
        (Total-reverse_parent b prev s)
        (λ s'.
          Total-then (measure s') regular stake (own s') staked
            (Total-apply_txs tx_tree_regular OpStatus.success b.transactions s')
            (λ s''. Total-apply_txs tx_tree_stake OpStatus.success b.stransactions s''))

  -- If the run over a block returns, the balance of an account that the callback keeps has changed
  -- by what the outputs of the block's transactions pay to it, less what their inputs spend from
  -- it, as an int64; and, if the block disapproves its parent, by the reverse for the parent's
  -- regular transactions.
  pub iterate_block_ops-net :
      (b : MsgBlock) (prev : Option MsgBlock) (s s' : S)
      → iterate_block_ops dcrd apply_op fetch b prev s ≡ (ok tt, s')
      → add64 (measure s') 0 ≡ add64 (measure s) (block_net dcrd prev_of a b prev)
  iterate_block_ops-net b prev s s' e =
      subst (Total (measure s) (block_net dcrd prev_of a b prev)) e
        (Total-iterate_block_ops b prev s)
