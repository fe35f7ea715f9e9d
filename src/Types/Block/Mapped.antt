-- ===== src/Types/Block/Mapped.antt =====
-- types/block.go: a run over a block in a state that another state is a view of.
use dcrros.Prelude.{
  ℕ, ◌+◌, ◌≡◌, refl, sym, Option, none, some, List, [], ◌∷◌, ◌&&◌, ◌||◌, nat_eq, inl, inr,
  Bool-cases,
}
use text.Mathlib.Text.{◌==◌ as str_eq}
use mathlib.Core.Path.{subst}
use dcrros.Prelude.Maps.{Map, lookup}
use dcrros.Prelude.Words.{neg64}
use dcrros.Prelude.Results.{Action, Result, ok, err, panic, pure, continue, ◌>>◌}
use dcrros.BackendDb.{Error, OutPoint, outpoint_comparable}
use dcrros.Wire.{TxIn, TxOut, MsgTx, MsgBlock, Dcrd, tx_tree_regular, tx_tree_stake}
use dcrros.Types.Ops.{OpStatus, is_success}
use dcrros.Types.Address.{treasury_account_address, dcr_pk_script_to_account_addr}
use dcrros.Types.Block.{
  PrevOutput, Op, TxFlags, tx_flags, prev_outpoints, in_op, out_op, emit, spend_prev, add_tx_in,
  add_tx_ins_from, add_tx_ins, add_tx_out, add_tx_outs_from, add_tx_outs, add_both,
  iterate_block_ops_in_tx, apply_txs_from, apply_txs, new_op, approves_parent, reverse_parent,
  iterate_block_ops,
}

module _ {T S : Type 0} (view : T → S) where
  abbrev pub along : {A : Type 0} → Result Error A × T → Result Error A × S
  along r = (r.0, view r.1)

  along-bind :
      {A B : Type 0} (m : Result Error A × T) (n : Result Error A × S) (f : A → Action Error T B)
      (g : A → Action Error S B)
      → n ≡ along m
      → ((a : A) (t : T) → g a (view t) ≡ along (f a t))
      → continue n.0 g n.1 ≡ along (continue m.0 f m.1)
  along-bind (ok a, t) n f g e h = subst (λ n. continue n.0 g n.1 ≡ along (f a t)) (sym e) (h a t)
  along-bind {B = B} (err x, t) n f g e h =
      subst (λ n. continue n.0 g n.1 ≡ along {A = B} (err x, t)) (sym e) refl
  along-bind {B = B} (panic, t) n f g e h =
      subst (λ n. continue n.0 g n.1 ≡ along {A = B} (panic, t)) (sym e) refl

  -- Callbacks and sources of previous outputs that the view takes to one another.
  module _ (dcrd : Dcrd) (apply_t : Op → Action Error T (Unit {0}))
      (apply_s : Op → Action Error S (Unit {0}))
      (applies : (op : Op) (t : T) → apply_s op (view t) ≡ along (apply_t op t))
      (fetch_t : List OutPoint → Action Error T (Map OutPoint PrevOutput))
      (fetch_s : List OutPoint → Action Error S (Map OutPoint PrevOutput))
      (fetches : (os : List OutPoint) (t : T) → fetch_s os (view t) ≡ along (fetch_t os t)) where
    along-emit : (op : Op) (t : T) → emit dcrd apply_s op (view t) ≡ along (emit dcrd apply_t op t)
    unfolding emit
    along-emit op t =
        along-bind (apply_t op t) (apply_s op (view t))
          (λ _. pure (record op { op_index = op.op_index + 1 }))
          (λ _. pure (record op { op_index = op.op_index + 1 })) (applies op t) (λ a t'. refl)

    along-spend_prev :
        (i : ℕ) (in_ : TxIn) (op : Op) (q : Option PrevOutput) (t : T)
        → spend_prev dcrd apply_s i in_ op q (view t) ≡ along (spend_prev dcrd apply_t i in_ op q t)
    unfolding spend_prev
    along-spend_prev i in_ op none t = refl
    along-spend_prev i in_ op (some p) t =
        let account = dcr_pk_script_to_account_addr dcrd p.version p.pk_script in
        elim (Bool-cases (str_eq account "")) [
          | inl e ↦ rw e refl
          | inr e ↦ rw e (along-emit (in_op i in_ (some p) p.version account (neg64 p.amount) op) t)
        ]

    along-add_tx_in :
        (f : TxFlags) (prevs : Map OutPoint PrevOutput) (i : ℕ) (in_ : TxIn) (op : Op) (t : T)
        → add_tx_in dcrd apply_s f prevs i in_ op (view t)
          ≡ along (add_tx_in dcrd apply_t f prevs i in_ op t)
    unfolding add_tx_in
    along-add_tx_in f prevs i in_ op t =
        elim (Bool-cases (nat_eq i 0 && (f.is_vote || f.is_coinbase || f.is_tbase))) [
          | inl e ↦ rw e refl
          | inr e ↦ rw e (elim (Bool-cases f.is_tspend) [
            | inl e' ↦
                rw e' (
                  along-emit (in_op i in_ none 0 treasury_account_address (neg64 in_.value_in) op)
                    t)
            | inr e' ↦ rw e' (along-spend_prev i in_ op (lookup in_.previous_out_point prevs) t)
          ])
        ]

    along-add_tx_ins_from :
        (f : TxFlags) (prevs : Map OutPoint PrevOutput) (i : ℕ) (ins : List TxIn) (op : Op) (t : T)
        → add_tx_ins_from dcrd apply_s f prevs i ins op (view t)
          ≡ along (add_tx_ins_from dcrd apply_t f prevs i ins op t)
    unfolding add_tx_ins_from
    along-add_tx_ins_from f prevs i [] op t = refl
    along-add_tx_ins_from f prevs i (in_ ∷ ins) op t =
        along-bind (add_tx_in dcrd apply_t f prevs i in_ op t)
          (add_tx_in dcrd apply_s f prevs i in_ op (view t))
          (add_tx_ins_from dcrd apply_t f prevs (i + 1) ins)
          (add_tx_ins_from dcrd apply_s f prevs (i + 1) ins) (along-add_tx_in f prevs i in_ op t)
          (along-add_tx_ins_from f prevs (i + 1) ins)

    along-add_tx_out :
        (f : TxFlags) (i : ℕ) (out : TxOut) (op : Op) (t : T)
        → add_tx_out dcrd apply_s f i out op (view t) ≡ along (add_tx_out dcrd apply_t f i out op t)
    unfolding add_tx_out
    along-add_tx_out f i out op t =
        let account = dcr_pk_script_to_account_addr dcrd out.version out.pk_script in
        elim (Bool-cases (nat_eq out.value 0)) [
          | inl e ↦ rw e refl
          | inr e ↦ rw e (elim (Bool-cases ((f.is_tadd || f.is_tbase) && nat_eq i 0)) [
            | inl e' ↦ rw e' (along-emit (out_op i out treasury_account_address op) t)
            | inr e' ↦ rw e' (elim (Bool-cases (str_eq account "")) [
              | inl e'' ↦ rw e'' refl
              | inr e'' ↦ rw e'' (along-emit (out_op i out account op) t)
            ])
          ])
        ]

    along-add_tx_outs_from :
        (f : TxFlags) (i : ℕ) (outs : List TxOut) (op : Op) (t : T)
        → add_tx_outs_from dcrd apply_s f i outs op (view t)
          ≡ along (add_tx_outs_from dcrd apply_t f i outs op t)
    unfolding add_tx_outs_from
    along-add_tx_outs_from f i [] op t = refl
    along-add_tx_outs_from f i (out ∷ outs) op t =
        along-bind (add_tx_out dcrd apply_t f i out op t)
          (add_tx_out dcrd apply_s f i out op (view t))
          (add_tx_outs_from dcrd apply_t f (i + 1) outs)
          (add_tx_outs_from dcrd apply_s f (i + 1) outs) (along-add_tx_out f i out op t)
          (along-add_tx_outs_from f (i + 1) outs)

    along-add_tx_ins :
        (f : TxFlags) (prevs : Map OutPoint PrevOutput) (op : Op) (t : T)
        → add_tx_ins dcrd apply_s f prevs op (view t) ≡ along (add_tx_ins dcrd apply_t f prevs op t)
    unfolding add_tx_ins
    along-add_tx_ins f prevs op t =
        along-add_tx_ins_from f prevs 0 op.tx.tx_in (record op { out = none }) t

    along-add_tx_outs :
        (f : TxFlags) (op : Op) (t : T)
        → add_tx_outs dcrd apply_s f op (view t) ≡ along (add_tx_outs dcrd apply_t f op t)
    unfolding add_tx_outs
    along-add_tx_outs f op t =
        along-add_tx_outs_from f 0 op.tx.tx_out (record op { in_ = none; prev_output = none }) t

    along-add_both :
        (f : TxFlags) (op : Op) (prevs : Map OutPoint PrevOutput) (t : T)
        → add_both dcrd apply_s f prevs op (view t) ≡ along (add_both dcrd apply_t f prevs op t)
    unfolding add_both
    along-add_both f op prevs t = elim (Bool-cases (is_success op.status)) [
      | inl e ↦ rw e (
          along-bind (add_tx_ins dcrd apply_t f prevs op t)
            (add_tx_ins dcrd apply_s f prevs op (view t)) (add_tx_outs dcrd apply_t f)
            (add_tx_outs dcrd apply_s f) (along-add_tx_ins f prevs op t) (along-add_tx_outs f))
      | inr e ↦ rw e (
          along-bind (add_tx_outs dcrd apply_t f op t) (add_tx_outs dcrd apply_s f op (view t))
            (add_tx_ins dcrd apply_t f prevs) (add_tx_ins dcrd apply_s f prevs)
            (along-add_tx_outs f op t) (along-add_tx_ins f prevs))
    ]

    along-in_tx :
        (op : Op) (t : T)
        → iterate_block_ops_in_tx dcrd apply_s fetch_s op (view t)
          ≡ along (iterate_block_ops_in_tx dcrd apply_t fetch_t op t)
    unfolding iterate_block_ops_in_tx
    along-in_tx op t =
        let f = tx_flags dcrd op.tree op.tx_index op.tx in
        let os = prev_outpoints f 0 op.tx.tx_in in
        along-bind (fetch_t os t) (fetch_s os (view t)) (λ prevs. add_both dcrd apply_t f prevs op)
          (λ prevs. add_both dcrd apply_s f prevs op) (fetches os t) (along-add_both f op)

    along-apply_txs_from :
        (i : ℕ) (txs : List MsgTx) (op : Op) (t : T)
        → apply_txs_from dcrd apply_s fetch_s i txs op (view t)
          ≡ along (apply_txs_from dcrd apply_t fetch_t i txs op t)
    unfolding apply_txs_from
    along-apply_txs_from i [] op t = refl
    along-apply_txs_from i (tx ∷ txs) op t =
        let op₀ = record op { tx = tx; tx_hash = dcrd.tx_hash tx; tx_index = i; op_index = 0 } in
        along-bind (iterate_block_ops_in_tx dcrd apply_t fetch_t op₀ t)
          (iterate_block_ops_in_tx dcrd apply_s fetch_s op₀ (view t))
          (apply_txs_from dcrd apply_t fetch_t (i + 1) txs)
          (apply_txs_from dcrd apply_s fetch_s (i + 1) txs) (along-in_tx op₀ t)
          (along-apply_txs_from (i + 1) txs)

    along-apply_txs :
        (tree : ℕ) (st : OpStatus) (txs : List MsgTx) (t : T)
        → apply_txs dcrd apply_s fetch_s tree st txs (view t)
          ≡ along (apply_txs dcrd apply_t fetch_t tree st txs t)
    unfolding apply_txs
    along-apply_txs tree st txs t =
        along-bind (apply_txs_from dcrd apply_t fetch_t 0 txs (new_op tree st) t)
          (apply_txs_from dcrd apply_s fetch_s 0 txs (new_op tree st) (view t)) (λ _. pure tt)
          (λ _. pure tt) (along-apply_txs_from 0 txs (new_op tree st) t) (λ op t'. refl)

    along-reverse_parent :
        (b : MsgBlock) (prev : Option MsgBlock) (t : T)
        → reverse_parent dcrd apply_s fetch_s b prev (view t)
          ≡ along (reverse_parent dcrd apply_t fetch_t b prev t)
    along-reverse_parent b none t = elim (Bool-cases (approves_parent b)) [
      | inl e ↦ rw e refl
      | inr e ↦ rw e refl
    ]
    along-reverse_parent b (some prev) t = elim (Bool-cases (approves_parent b)) [
      | inl e ↦ rw e refl
      | inr e ↦ rw e (along-apply_txs tx_tree_regular OpStatus.reversed prev.transactions t)
    ]

    -- A run over a block in the larger state, seen through the view, is the run in the smaller one.
    pub along-iterate_block_ops :
        (b : MsgBlock) (prev : Option MsgBlock) (t : T)
        → iterate_block_ops dcrd apply_s fetch_s b prev (view t)
          ≡ along (iterate_block_ops dcrd apply_t fetch_t b prev t)
    unfolding iterate_block_ops
    along-iterate_block_ops b prev t =
        along-bind (reverse_parent dcrd apply_t fetch_t b prev t)
          (reverse_parent dcrd apply_s fetch_s b prev (view t))
          (λ _.
            apply_txs dcrd apply_t fetch_t tx_tree_regular OpStatus.success b.transactions
            >> apply_txs dcrd apply_t fetch_t tx_tree_stake OpStatus.success b.stransactions)
          (λ _.
            apply_txs dcrd apply_s fetch_s tx_tree_regular OpStatus.success b.transactions
            >> apply_txs dcrd apply_s fetch_s tx_tree_stake OpStatus.success b.stransactions)
          (along-reverse_parent b prev t)
          (λ _ t'.
            along-bind
              (apply_txs dcrd apply_t fetch_t tx_tree_regular OpStatus.success b.transactions t')
              (apply_txs dcrd apply_s fetch_s tx_tree_regular OpStatus.success b.transactions
                (view t'))
              (λ _. apply_txs dcrd apply_t fetch_t tx_tree_stake OpStatus.success b.stransactions)
              (λ _. apply_txs dcrd apply_s fetch_s tx_tree_stake OpStatus.success b.stransactions)
              (along-apply_txs tx_tree_regular OpStatus.success b.transactions t')
              (λ _. along-apply_txs tx_tree_stake OpStatus.success b.stransactions))
