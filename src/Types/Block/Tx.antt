-- ===== src/Types/Block/Tx.antt =====
-- A transaction of types/block.go: what its operations do to one account.
use dcrros.Prelude.{
  ℕ, ◌+◌, ◌≡◌, refl, String, Option, none, some, List, arith, inl, inr, Bool-cases,
}
use mathlib.Core.Path.{subst}
use dcrros.Prelude.Maps.{Map, lookup}
use dcrros.Prelude.Words.{add64, neg64}
use dcrros.Prelude.Results.{Action, Result, ok, err, panic, continue, ◌>>=◌}
use dcrros.BackendDb.{Error, OutPoint, outpoint_comparable}
use dcrros.Wire.{Dcrd}
use dcrros.Types.Ops.{OpStatus, is_success}
use dcrros.Types.Block.{
  PrevOutput, Op, TxFlags, tx_flags, prev_outpoints, signed_for, add_tx_ins, add_tx_outs, add_both,
  iterate_block_ops_in_tx,
}
use dcrros.Types.Block.Amounts.{counts, ins_spent, outs_paid, tx_net}
use dcrros.Types.Block.Net.{
  Keeps, Grows, Grows-bind, Grows-eq, Grows-add_tx_ins_from, Grows-add_tx_outs_from,
}

-- A callback that adds the amounts of the account's operations to a measure of its state, and a
-- source of previous outputs that leaves it alone and gives true ones.
module _ {S : Type 0} (dcrd : Dcrd) (apply_op : Op → Action Error S (Unit {0}))
    (fetch : List OutPoint → Action Error S (Map OutPoint PrevOutput))
    (prev_of : OutPoint → Option PrevOutput) (a : String) (measure : S → ℕ)
    (adds : (op : Op) (s s' : S)
      → apply_op op s ≡ (ok tt, s')
      → add64 (measure s') 0 ≡ add64 (measure s) (counts a op.account op.amount))
    (fetches : (os : List OutPoint) (s s' : S) (m : Map OutPoint PrevOutput)
      → fetch os s ≡ (ok m, s')
      → (measure s' ≡ measure s)
        × ((o : OutPoint) (p : PrevOutput) → lookup o m ≡ some p → prev_of o ≡ some p)) where
  abbrev pub Grow : Op → ℕ → ℕ → Result Error Op × S → Type 0
  Grow = Grows dcrd apply_op prev_of a measure adds

  Grow-add_tx_ins :
      (f : TxFlags) (prevs : Map OutPoint PrevOutput)
      → ((o : OutPoint) (p : PrevOutput) → lookup o prevs ≡ some p → prev_of o ≡ some p)
      → (op : Op) (s : S)
      → Grow op
          (measure s)
          (signed_for op.status (neg64 (ins_spent dcrd prev_of a f 0 op.tx.tx_in)))
          (add_tx_ins dcrd apply_op f prevs op s)
  unfolding add_tx_ins
  Grow-add_tx_ins f prevs h op s =
      Grows-add_tx_ins_from dcrd apply_op prev_of a measure adds prevs h f 0 op.tx.tx_in
        (record op { out = none }) s

  Grow-add_tx_outs :
      (f : TxFlags) (op : Op) (s : S)
      → Grow op
          (measure s)
          (signed_for op.status (outs_paid dcrd prev_of a f 0 op.tx.tx_out))
          (add_tx_outs dcrd apply_op f op s)
  unfolding add_tx_outs
  Grow-add_tx_outs f op s =
      Grows-add_tx_outs_from dcrd apply_op prev_of a measure adds f 0 op.tx.tx_out
        (record op { in_ = none; prev_output = none }) s

  -- After one part of a transaction, another.
  Grow-then :
      (op : Op) (m x y z : ℕ) (r : Result Error Op × S) (g : Op → Action Error S Op)
      → add64 (x + y) 0 ≡ add64 z 0
      → Grow op m x r
      → ((op' : Op) (s' : S) → Keeps op op' → Grow op' (measure s') y (g op' s'))
      → Grow op m z (continue r.0 g r.1)
  Grow-then op m x y z r g e h k =
      Grows-eq dcrd apply_op prev_of a measure adds op m (x + y) z (continue r.0 g r.1) e
        (Grows-bind dcrd apply_op prev_of a measure adds op m x y r g h k)

  net_sum :
      (st : OpStatus) (i o : ℕ)
      → (add64 (signed_for st (neg64 i) + signed_for st o) 0
          ≡ add64 (signed_for st (add64 o (neg64 i))) 0)
        × (add64 (signed_for st o + signed_for st (neg64 i)) 0
            ≡ add64 (signed_for st (add64 o (neg64 i))) 0)
  net_sum st i o = (ground arith, ground arith)

  Grow-add_both :
      (f : TxFlags) (prevs : Map OutPoint PrevOutput)
      → ((o : OutPoint) (p : PrevOutput) → lookup o prevs ≡ some p → prev_of o ≡ some p)
      → (op : Op) (s : S)
      → Grow op
          (measure s)
          (signed_for op.status (
            add64
              (outs_paid dcrd prev_of a f 0 op.tx.tx_out)
              (neg64 (ins_spent dcrd prev_of a f 0 op.tx.tx_in))))
          (add_both dcrd apply_op f prevs op s)
  unfolding add_both
  Grow-add_both f prevs h op s =
      let i = ins_spent dcrd prev_of a f 0 op.tx.tx_in in
      let o = outs_paid dcrd prev_of a f 0 op.tx.tx_out in
      let st = op.status in
      let net = signed_for st (add64 o (neg64 i)) in
      let ins = add_tx_ins dcrd apply_op f prevs in
      let outs = add_tx_outs dcrd apply_op f in
      elim (Bool-cases (is_success st)) [
        | inl t ↦ rw t (
            Grow-then op (measure s) (signed_for st (neg64 i)) (signed_for st o) net (ins op s) outs
              (net_sum st i o).0 (Grow-add_tx_ins f prevs h op s)
              (λ op' s' k.
                subst (λ st. Grow op' (measure s') (signed_for st o) (outs op' s')) k.0
                  (subst
                    (λ tx.
                      Grow op' (measure s')
                        (signed_for op'.status (outs_paid dcrd prev_of a f 0 tx.tx_out))
                        (outs op' s'))
                    k.1.0 (Grow-add_tx_outs f op' s'))))
        | inr t ↦ rw t (
            Grow-then op (measure s) (signed_for st o) (signed_for st (neg64 i)) net (outs op s) ins
              (net_sum st i o).1 (Grow-add_tx_outs f op s)
              (λ op' s' k.
                subst (λ st. Grow op' (measure s') (signed_for st (neg64 i)) (ins op' s')) k.0
                  (subst
                    (λ tx.
                      Grow op' (measure s')
                        (signed_for op'.status (neg64 (ins_spent dcrd prev_of a f 0 tx.tx_in)))
                        (ins op' s'))
                    k.1.0 (Grow-add_tx_ins f prevs h op' s'))))
      ]

  Grow-fetch :
      (op : Op) (s : S) (x : ℕ) (os : List OutPoint)
      (g : Map OutPoint PrevOutput → Action Error S Op)
      → ((m : Map OutPoint PrevOutput)
          → ((o : OutPoint) (p : PrevOutput) → lookup o m ≡ some p → prev_of o ≡ some p)
          → (s' : S) → Grow op (measure s') x (g m s'))
      → Grow op (measure s) x ((fetch os >>= g) s)
  Grow-fetch op s x os g h = on (fetch os s) refl
    where
      on :
          (r : Result Error (Map OutPoint PrevOutput) × S)
          → fetch os s ≡ r
          → Grow op (measure s) x (continue r.0 g r.1)
      on (ok m, s') e =
          let t = fetches os s s' m e in subst (λ n. Grow op n x (g m s')) t.0 (h m t.1 s')
      on (err e', s') e = tt
      on (panic, s') e = tt

  pub Grow-in_tx :
      (op : Op) (s : S)
      → Grow op
          (measure s)
          (tx_net dcrd prev_of a op.tree op.status op.tx_index op.tx)
          (iterate_block_ops_in_tx dcrd apply_op fetch op s)
  unfolding iterate_block_ops_in_tx tx_net
  Grow-in_tx op s =
      let f = tx_flags dcrd op.tree op.tx_index op.tx in
      Grow-fetch op s (tx_net dcrd prev_of a op.tree op.status op.tx_index op.tx)
        (prev_outpoints f 0 op.tx.tx_in) (λ prevs. add_both dcrd apply_op f prevs op)
        (λ prevs h s'. Grow-add_both f prevs h op s')
