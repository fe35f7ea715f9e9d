-- ===== src/Types/Block/Returned.antt =====
-- types/block.go: the results of the loops over a transaction's inputs and outputs.
use dcrros.Prelude.{
  ℕ, ◌+◌, ◌≡◌, ◌≢◌, refl, ◌∙◌, sym, Bool, true, false, ◌&&◌, ◌||◌, Option, none, some, List, [],
  ◌∷◌, inl, inr, Bool-cases, nat_eq, arith, if◌then◌else◌,
}
use text.Mathlib.Text.{◌==◌ as str_eq}
use mathlib.Core.Path.{subst}
use mathlib.Core.Bool.{true≢false}
use dcrros.Prelude.Lists.{All}
use dcrros.Prelude.Maps.{Map, lookup}
use dcrros.Prelude.Words.{neg64}
use dcrros.Prelude.Results.{Action, Result, ok, err, panic, pure, continue}
use dcrros.BackendDb.{Error, OutPoint, outpoint_comparable}
use dcrros.Wire.{TxIn, TxOut, MsgTx, Dcrd}
use dcrros.Types.Ops.{is_success}
use dcrros.Types.Address.{treasury_account_address, dcr_pk_script_to_account_addr}
use dcrros.Types.Block.{
  PrevOutput, Op, TxFlags, prev_outpoints, in_op, out_op, emit, spend_prev, add_tx_in,
  add_tx_ins_from, add_tx_ins, add_tx_out, add_tx_outs_from, add_tx_outs, add_both,
}

module _ {S : Type 0} where
  -- The fetch returned, with an output for each of the outpoints.
  abbrev pub Fetched : List OutPoint → Result Error (Map OutPoint PrevOutput) × S → Type 0
  Fetched os (ok prevs, s) = All (λ o. lookup o prevs ≢ none) os
  Fetched os (err e, s) = ⊥
  Fetched os (panic, s) = ⊥

  -- The call returned, and left the transaction and its tree in place.
  abbrev pub Returned : MsgTx → ℕ → Result Error Op × S → Type 0
  Returned tx tree (ok op, s) = (op.tx ≡ tx) × (op.tree ≡ tree)
  Returned tx tree (err e, s) = ⊥
  Returned tx tree (panic, s) = ⊥

  Returned-after :
      (tx : MsgTx) (tree : ℕ) (op : Op) (r : Result Error Op × S)
      → (op.tx ≡ tx) × (op.tree ≡ tree)
      → Returned op.tx op.tree r
      → Returned tx tree r
  Returned-after tx tree op (ok op', s') k h = (h.0 ∙ k.0, h.1 ∙ k.1)
  Returned-after tx tree op (err x, s') k h = h
  Returned-after tx tree op (panic, s') k h = h

  Returned-bind :
      (tx : MsgTx) (tree : ℕ) (r : Result Error Op × S) (g : Op → Action Error S Op)
      → Returned tx tree r
      → ((op : Op) (s' : S) → (op.tx ≡ tx) × (op.tree ≡ tree) → Returned op.tx op.tree (g op s'))
      → Returned tx tree (continue r.0 g r.1)
  Returned-bind tx tree (ok op, s') g h k = Returned-after tx tree op (g op s') h (k op s' h)
  Returned-bind tx tree (err x, s') g h k = h
  Returned-bind tx tree (panic, s') g h k = h

-- Each of the outpoints has an output.
abbrev pub IsFound : Map OutPoint PrevOutput → List OutPoint → Type 0
IsFound prevs = All (λ o. lookup o prevs ≢ none)

IsFound-rest :
    (skip : Bool) (o : OutPoint) (os : List OutPoint) (prevs : Map OutPoint PrevOutput)
    → IsFound prevs (if skip then os else o ∷ os)
    → IsFound prevs os
IsFound-rest true o os prevs h = h
IsFound-rest false o os prevs h = h.1

IsFound-first :
    (skip : Bool) (o : OutPoint) (os : List OutPoint) (prevs : Map OutPoint PrevOutput)
    → skip ≡ false
    → IsFound prevs (if skip then os else o ∷ os)
    → lookup o prevs ≢ none
IsFound-first true o os prevs e h = absurd (true≢false e)
IsFound-first false o os prevs e h = h.0

-- A callback that does not fail.
module _ {S : Type 0} (dcrd : Dcrd) (apply_op : Op → Action Error S (Unit {0}))
    (applies : (op : Op) (s : S) → (apply_op op s).0 ≡ ok tt) where
  Returned-emit : (op : Op) (s : S) → Returned op.tx op.tree (emit dcrd apply_op op s)
  unfolding emit
  Returned-emit op s = on (apply_op op s) (applies op s)
    where
      on :
          (r : Result Error (Unit {0}) × S)
          → r.0 ≡ ok tt
          → Returned op.tx op.tree
              (continue r.0 (λ _. pure (record op { op_index = op.op_index + 1 })) r.1)
      on (ok u, s') e = (refl, refl)
      on (err x, s') e = cc
      on (panic, s') e = cc

  Returned-spend_prev :
      (i : ℕ) (in_ : TxIn) (op : Op) (q : Option PrevOutput) (s : S)
      → q ≢ none
      → Returned op.tx op.tree (spend_prev dcrd apply_op i in_ op q s)
  unfolding spend_prev in_op
  Returned-spend_prev i in_ op none s h = absurd (h refl)
  Returned-spend_prev i in_ op (some p) s h =
      let account = dcr_pk_script_to_account_addr dcrd p.version p.pk_script in
      elim (Bool-cases (str_eq account "")) [
        | inl e ↦ rw e (refl, refl)
        | inr e ↦
            rw e (Returned-emit (in_op i in_ (some p) p.version account (neg64 p.amount) op) s)
      ]

  Returned-add_tx_in :
      (f : TxFlags) (prevs : Map OutPoint PrevOutput) (i : ℕ) (in_ : TxIn) (op : Op) (s : S)
      → (nat_eq i 0 && (f.is_vote || f.is_coinbase || f.is_tbase || f.is_tspend) ≡ false
          → lookup in_.previous_out_point prevs ≢ none)
      → Returned op.tx op.tree (add_tx_in dcrd apply_op f prevs i in_ op s)
  unfolding add_tx_in in_op
  Returned-add_tx_in f prevs i in_ op s h =
      elim (Bool-cases (nat_eq i 0 && (f.is_vote || f.is_coinbase || f.is_tbase))) [
        | inl t ↦ rw t (refl, refl)
        | inr t ↦ rw t (elim (Bool-cases f.is_tspend) [
          | inl t' ↦ rw t' (
              Returned-emit (in_op i in_ none 0 treasury_account_address (neg64 in_.value_in) op) s)
          | inr t' ↦ rw t' (
              Returned-spend_prev i in_ op (lookup in_.previous_out_point prevs) s
                (h (grind (arith, t, t'))))
        ])
      ]

  Returned-add_tx_ins_from :
      (f : TxFlags) (prevs : Map OutPoint PrevOutput) (i : ℕ) (ins : List TxIn) (op : Op) (s : S)
      → IsFound prevs (prev_outpoints f i ins)
      → Returned op.tx op.tree (add_tx_ins_from dcrd apply_op f prevs i ins op s)
  unfolding add_tx_ins_from prev_outpoints
  Returned-add_tx_ins_from f prevs i [] op s h = (refl, refl)
  Returned-add_tx_ins_from f prevs i (in_ ∷ ins) op s h =
      let skip : Bool = nat_eq i 0 && (f.is_vote || f.is_coinbase || f.is_tbase || f.is_tspend) in
      let rest : List OutPoint = prev_outpoints f (i + 1) ins in
      let g = add_tx_ins_from dcrd apply_op f prevs (i + 1) ins in
      Returned-bind op.tx op.tree (add_tx_in dcrd apply_op f prevs i in_ op s) g
        (Returned-add_tx_in f prevs i in_ op s
          (λ e. IsFound-first skip in_.previous_out_point rest prevs e h))
        (λ op' s' k.
          Returned-add_tx_ins_from f prevs (i + 1) ins op' s'
            (IsFound-rest skip in_.previous_out_point rest prevs h))

  Returned-add_tx_out :
      (f : TxFlags) (i : ℕ) (out : TxOut) (op : Op) (s : S)
      → Returned op.tx op.tree (add_tx_out dcrd apply_op f i out op s)
  unfolding add_tx_out out_op
  Returned-add_tx_out f i out op s =
      let account = dcr_pk_script_to_account_addr dcrd out.version out.pk_script in
      elim (Bool-cases (nat_eq out.value 0)) [
        | inl t ↦ rw t (refl, refl)
        | inr t ↦ rw t (elim (Bool-cases ((f.is_tadd || f.is_tbase) && nat_eq i 0)) [
          | inl t' ↦ rw t' (Returned-emit (out_op i out treasury_account_address op) s)
          | inr t' ↦ rw t' (elim (Bool-cases (str_eq account "")) [
            | inl e ↦ rw e (refl, refl)
            | inr e ↦ rw e (Returned-emit (out_op i out account op) s)
          ])
        ])
      ]

  Returned-add_tx_outs_from :
      (f : TxFlags) (i : ℕ) (outs : List TxOut) (op : Op) (s : S)
      → Returned op.tx op.tree (add_tx_outs_from dcrd apply_op f i outs op s)
  unfolding add_tx_outs_from
  Returned-add_tx_outs_from f i [] op s = (refl, refl)
  Returned-add_tx_outs_from f i (out ∷ outs) op s =
      let g = add_tx_outs_from dcrd apply_op f (i + 1) outs in
      Returned-bind op.tx op.tree (add_tx_out dcrd apply_op f i out op s) g
        (Returned-add_tx_out f i out op s)
        (λ op' s' k. Returned-add_tx_outs_from f (i + 1) outs op' s')

  pub Returned-add_both :
      (f : TxFlags) (prevs : Map OutPoint PrevOutput) (op : Op) (s : S)
      → IsFound prevs (prev_outpoints f 0 op.tx.tx_in)
      → Returned op.tx op.tree (add_both dcrd apply_op f prevs op s)
  unfolding add_both add_tx_ins add_tx_outs
  Returned-add_both f prevs op s h =
      let ins = add_tx_ins dcrd apply_op f prevs in
      let outs = add_tx_outs dcrd apply_op f in
      let pays : (op' : Op) (s' : S) → Returned op'.tx op'.tree (outs op' s') = λ op' s'.
        Returned-add_tx_outs_from f 0 op'.tx.tx_out (record op' { in_ = none; prev_output = none })
          s' in
      elim (Bool-cases (is_success op.status)) [
        | inl t ↦ rw t (
            Returned-bind op.tx op.tree (ins op s) outs
              (Returned-add_tx_ins_from f prevs 0 op.tx.tx_in (record op { out = none }) s h)
              (λ op' s' k. pays op' s'))
        | inr t ↦ rw t (
            Returned-bind op.tx op.tree (outs op s) ins (pays op s) (λ op' s' k.
              Returned-add_tx_ins_from f prevs 0 op'.tx.tx_in (record op' { out = none }) s'
                (subst (λ tx. IsFound prevs (prev_outpoints f 0 tx.tx_in)) (sym k.0) h)))
      ]
