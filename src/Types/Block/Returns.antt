-- ===== src/Types/Block/Returns.antt =====
-- types/block.go: the results of a run over a block.
use dcrros.Prelude.{ℕ, ◌+◌, ◌≡◌, refl, sym, Bool, true, false, Option, none, some, List, [], ◌∷◌}
use mathlib.Core.Path.{subst}
use dcrros.Prelude.Lists.{All}
use dcrros.Prelude.Maps.{Map}
use dcrros.Prelude.Results.{Action, Result, ok, err, panic, pure, continue, ◌>>◌}
use dcrros.BackendDb.{Error, OutPoint, outpoint_comparable}
use dcrros.Wire.{MsgTx, MsgBlock, Dcrd, tx_tree_regular, tx_tree_stake}
use dcrros.Types.Ops.{OpStatus}
use dcrros.Types.Block.Returned.{Fetched, Returned, Returned-add_both}
use dcrros.Types.Block.{
  PrevOutput, Op, TxFlags, tx_flags, prev_outpoints, add_both, iterate_block_ops_in_tx,
  apply_txs_from, apply_txs, new_op, approves_parent, reverse_parent, iterate_block_ops,
}

module _ {S : Type 0} where
  abbrev Done : {A : Type 0} → Result Error A × S → Type 0
  Done (ok x, s) = Unit
  Done (err e, s) = ⊥
  Done (panic, s) = ⊥

  Done-bind :
      {A B : Type 0} (r : Result Error A × S) (g : A → Action Error S B)
      → Done r
      → ((x : A) (s' : S) → Done (g x s'))
      → Done (continue r.0 g r.1)
  Done-bind (ok x, s') g h k = k x s'
  Done-bind (err x, s') g h k = h
  Done-bind (panic, s') g h k = h

  Returned-then :
      (tx : MsgTx) (tree : ℕ) (r : Result Error Op × S) (g : Op → Action Error S Op)
      → Returned tx tree r
      → ((op : Op) (s' : S) → op.tree ≡ tree → Done (g op s'))
      → Done (continue r.0 g r.1)
  Returned-then tx tree (ok op, s') g h k = k op s' h.1
  Returned-then tx tree (err x, s') g h k = h
  Returned-then tx tree (panic, s') g h k = h

-- The outpoints that the transactions from an index of a tree on ask for are known ones.
module _ (dcrd : Dcrd) (Known : OutPoint → Type 0) where
  abbrev pub AreKnown : ℕ → ℕ → List MsgTx → Type 0
  AreKnown tree i [] = Unit
  AreKnown tree i (tx ∷ txs) =
      All Known (prev_outpoints (tx_flags dcrd tree i tx) 0 tx.tx_in) × AreKnown tree (i + 1) txs

  -- The parent counts only if the block disapproves it.
  abbrev pub IsParentKnown : Bool → Option MsgBlock → Type 0
  IsParentKnown true prev = Unit
  IsParentKnown false none = ⊥
  IsParentKnown false (some prev) = AreKnown tx_tree_regular 0 prev.transactions

-- A callback that does not fail, and a source of previous outputs that has the known ones.
module _ {S : Type 0} (dcrd : Dcrd) (apply_op : Op → Action Error S (Unit {0}))
    (fetch : List OutPoint → Action Error S (Map OutPoint PrevOutput)) (Known : OutPoint → Type 0)
    (applies : (op : Op) (s : S) → (apply_op op s).0 ≡ ok tt)
    (fetches : (os : List OutPoint) (s : S) → All Known os → Fetched os (fetch os s)) where
  Returned-in_tx :
      (op : Op) (s : S)
      → All Known (prev_outpoints (tx_flags dcrd op.tree op.tx_index op.tx) 0 op.tx.tx_in)
      → Returned op.tx op.tree (iterate_block_ops_in_tx dcrd apply_op fetch op s)
  unfolding iterate_block_ops_in_tx
  Returned-in_tx op s known = on (fetch os s) (fetches os s known)
    where
      f : TxFlags
      f = tx_flags dcrd op.tree op.tx_index op.tx

      os : List OutPoint
      os = prev_outpoints f 0 op.tx.tx_in

      on :
          (r : Result Error (Map OutPoint PrevOutput) × S)
          → Fetched os r
          → Returned op.tx op.tree (continue r.0 (λ prevs. add_both dcrd apply_op f prevs op) r.1)
      on (ok prevs, s') h = Returned-add_both dcrd apply_op applies f prevs op s' h
      on (err e, s') h = h
      on (panic, s') h = h

  Done-apply_txs_from :
      (i : ℕ) (txs : List MsgTx) (op : Op) (s : S)
      → AreKnown dcrd Known op.tree i txs
      → Done (apply_txs_from dcrd apply_op fetch i txs op s)
  unfolding apply_txs_from
  Done-apply_txs_from i [] op s known = tt
  Done-apply_txs_from i (tx ∷ txs) op s known =
      let op₀ = record op { tx = tx; tx_hash = dcrd.tx_hash tx; tx_index = i; op_index = 0 } in
      Returned-then tx op.tree (iterate_block_ops_in_tx dcrd apply_op fetch op₀ s)
        (apply_txs_from dcrd apply_op fetch (i + 1) txs) (Returned-in_tx op₀ s known.0)
        (λ op' s' h.
          Done-apply_txs_from (i + 1) txs op' s'
            (subst (λ tree. AreKnown dcrd Known tree (i + 1) txs) (sym h) known.1))

  Done-apply_txs :
      (tree : ℕ) (st : OpStatus) (txs : List MsgTx) (s : S)
      → AreKnown dcrd Known tree 0 txs
      → Done (apply_txs dcrd apply_op fetch tree st txs s)
  unfolding apply_txs
  Done-apply_txs tree st txs s known =
      Done-bind (apply_txs_from dcrd apply_op fetch 0 txs (new_op tree st) s) (λ _. pure tt)
        (Done-apply_txs_from 0 txs (new_op tree st) s known) (λ op' s'. tt)

  Done-reverse_parent :
      (b : MsgBlock) (prev : Option MsgBlock) (s : S)
      → IsParentKnown dcrd Known (approves_parent b) prev
      → Done (reverse_parent dcrd apply_op fetch b prev s)
  Done-reverse_parent b prev s h = on (approves_parent b) prev refl h
    where
      on :
          (approves : Bool) (p : Option MsgBlock)
          → approves_parent b ≡ approves
          → IsParentKnown dcrd Known approves p
          → Done (reverse_parent dcrd apply_op fetch b p s)
      on true none e h = rw e tt
      on true (some p) e h = rw e tt
      on false none e h = elim h [ ]
      on false (some p) e h =
          rw e (Done-apply_txs tx_tree_regular OpStatus.reversed p.transactions s h)

  Done-iterate_block_ops :
      (b : MsgBlock) (prev : Option MsgBlock) (s : S)
      → IsParentKnown dcrd Known (approves_parent b) prev
      → AreKnown dcrd Known tx_tree_regular 0 b.transactions
      → AreKnown dcrd Known tx_tree_stake 0 b.stransactions
      → Done (iterate_block_ops dcrd apply_op fetch b prev s)
  unfolding iterate_block_ops
  Done-iterate_block_ops b prev s parent regular stake =
      let own = apply_txs dcrd apply_op fetch tx_tree_regular OpStatus.success b.transactions in
      let staked = apply_txs dcrd apply_op fetch tx_tree_stake OpStatus.success b.stransactions in
      Done-bind (reverse_parent dcrd apply_op fetch b prev s) (λ _. own >> staked)
        (Done-reverse_parent b prev s parent)
        (λ _ s'.
          Done-bind (own s') (λ _. staked)
            (Done-apply_txs tx_tree_regular OpStatus.success b.transactions s' regular)
            (λ _ s''. Done-apply_txs tx_tree_stake OpStatus.success b.stransactions s'' stake))

  -- If the callback never fails and the previous outputs that the transactions ask for can be
  -- fetched, then the run returns without an error over a block that approves its parent, and over
  -- one that disapproves it and is given with it.
  pub iterate_block_ops_returns :
      (b : MsgBlock) (prev : Option MsgBlock) (s : S)
      → IsParentKnown dcrd Known (approves_parent b) prev
      → AreKnown dcrd Known tx_tree_regular 0 b.transactions
      → AreKnown dcrd Known tx_tree_stake 0 b.stransactions
      → (iterate_block_ops dcrd apply_op fetch b prev s).0 ≡ ok tt
  iterate_block_ops_returns b prev s parent regular stake =
      on (iterate_block_ops dcrd apply_op fetch b prev s)
        (Done-iterate_block_ops b prev s parent regular stake)
    where
      on : (r : Result Error (Unit {0}) × S) → Done r → r.0 ≡ ok tt
      on (ok u, s') d = refl
      on (err e, s') d = elim d [ ]
      on (panic, s') d = elim d [ ]
