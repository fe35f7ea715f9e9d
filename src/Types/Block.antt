-- ===== src/Types/Block.antt =====
-- types/block.go: the Rosetta operations of a block.
pub mod Amounts
pub mod Mapped
pub mod Invariant
pub mod Net
pub mod Tx
pub mod Whole
pub mod Reversal
pub mod Returned
pub mod Returns
pub mod Rosetta
pub mod Mempool
use dcrros.Prelude.{
  ℕ, ◌+◌, ◌%◌, String, Bool, true, false, not, ◌&&◌, ◌||◌, Option, none, some, List, [], ◌∷◌,
  nat_eq, if◌then◌else◌,
}
use text.Mathlib.Text.{◌==◌ as str_eq}
use dcrros.Prelude.Maps.{Map, lookup}
use dcrros.Prelude.Words.{neg64}
use dcrros.Prelude.Results.{Action, Result, ok, err, panic, pure, throw, crash, ◌>>=◌, ◌>>◌}
use dcrros.BackendDb.{Error, plain, needs_previous_block, OutPoint, outpoint_comparable}
use dcrros.Wire.{
  TxIn, TxOut, MsgTx, BlockHeader, MsgBlock, TxType, Dcrd, tx_tree_regular, tx_tree_stake,
}
use dcrros.Types.Ops.{OpType, OpStatus, is_success, is_reversed}
use dcrros.Types.Address.{treasury_account_address, dcr_pk_script_to_account_addr}

pub record PrevOutput : Type 0 where
  pub pk_script : List ℕ
  pub version : ℕ
  pub amount : ℕ

-- nil pointers are `none`; amounts are int64 patterns
pub record Op : Type 0 where
  pub tree : ℕ
  pub status : OpStatus
  pub tx : MsgTx
  pub tx_hash : ℕ
  pub tx_index : ℕ
  pub io_index : ℕ
  pub account : String
  pub account_version : ℕ
  pub type : OpType
  pub op_index : ℕ
  pub amount : ℕ
  pub in_ : Option TxIn
  pub out : Option TxOut
  pub prev_output : Option PrevOutput

unfoldable pub vote_bits_approves_parent : ℕ → Bool
vote_bits_approves_parent vote_bits = nat_eq (vote_bits % 2) 1

-- The flags at the head of `iterateBlockOpsInTx`.
pub record TxFlags : Type 0 where
  pub is_vote : Bool
  pub is_coinbase : Bool
  pub is_tbase : Bool
  pub is_tadd : Bool
  pub is_tspend : Bool

abbrev pub is_type : TxType → TxType → Bool
is_type TxType.regular TxType.regular = true
is_type TxType.ssgen TxType.ssgen = true
is_type TxType.tadd TxType.tadd = true
is_type TxType.tspend TxType.tspend = true
is_type TxType.treasury_base TxType.treasury_base = true
is_type _ _ = false

-- The flags of a transaction at an index of a tree.
unfoldable pub tx_flags : Dcrd → ℕ → ℕ → MsgTx → TxFlags
tx_flags dcrd tree tx_index tx =
    let is_stake = nat_eq tree tx_tree_stake in
    let type = dcrd.determine_tx_type tx in
    record {
      is_vote = is_type type TxType.ssgen;
      is_coinbase = not is_stake && is_type type TxType.regular && nat_eq tx_index 0;
      is_tbase = is_stake && is_type type TxType.treasury_base && nat_eq tx_index 0;
      is_tadd = is_stake && is_type type TxType.tadd;
      is_tspend = is_stake && is_type type TxType.tspend;
    }

-- The outpoints that are fetched: those of all inputs, but not of a first one with no output.
unfoldable pub prev_outpoints : TxFlags → ℕ → List TxIn → List OutPoint
prev_outpoints f i [] = []
prev_outpoints f i (in_ ∷ ins) =
    let rest = prev_outpoints f (i + 1) ins in
    if nat_eq i 0 && (f.is_vote || f.is_coinbase || f.is_tbase || f.is_tspend)
    then rest
    else in_.previous_out_point ∷ rest

-- `op.Amount *= -1` of a reversed operation.
abbrev pub signed_for : OpStatus → ℕ → ℕ
signed_for st amount = if is_reversed st then neg64 amount else amount

-- The operation of an input, and of an output, before its callback.
unfoldable pub in_op : ℕ → TxIn → Option PrevOutput → ℕ → String → ℕ → Op → Op
in_op i in_ prev version account amount op = record op {
  prev_output = prev;
  account_version = version;
  account = account;
  io_index = i;
  in_ = some in_;
  type = OpType.debit;
  amount = signed_for op.status amount;
}

unfoldable pub out_op : ℕ → TxOut → String → Op → Op
out_op i out account op = record op {
  account_version = out.version;
  account = account;
  io_index = i;
  out = some out;
  type = OpType.credit;
  amount = signed_for op.status out.value;
}

-- `Op{Tree: tree, Status: status}`
abbrev pub new_op : ℕ → OpStatus → Op
new_op tree status = record {
  tree = tree;
  status = status;
  tx = record { version = 0; tx_in = []; tx_out = []; lock_time = 0; expiry = 0 };
  tx_hash = 0;
  tx_index = 0;
  io_index = 0;
  account = "";
  account_version = 0;
  type = OpType.unset;
  op_index = 0;
  amount = 0;
  in_ = none;
  out = none;
  prev_output = none;
}

abbrev pub approves_parent : MsgBlock → Bool
approves_parent b = vote_bits_approves_parent b.header.vote_bits || nat_eq b.header.height 0

module _ {S : Type 0} (dcrd : Dcrd) (apply_op : Op → Action Error S (Unit {0})) where
  -- The callback, and the cumulative index after it.
  unfoldable pub emit : Op → Action Error S Op
  emit op = do apply_op op; pure (record op { op_index = op.op_index + 1 })

  -- A standard input, with what was found for its outpoint.
  unfoldable pub spend_prev : ℕ → TxIn → Op → Option PrevOutput → Action Error S Op
  unfolding emit in_op
  spend_prev i in_ op none = throw (plain "missing prev outpoint %s")
  spend_prev i in_ op (some prev) =
      let account = dcr_pk_script_to_account_addr dcrd prev.version prev.pk_script in
      if str_eq account ""
      then pure
          (record op { prev_output = some prev; account_version = prev.version; account = account })
      else emit (in_op i in_ (some prev) prev.version account (neg64 prev.amount) op)

  -- One round of the loop over the inputs.
  unfoldable pub add_tx_in : TxFlags → Map OutPoint PrevOutput → ℕ → TxIn → Op → Action Error S Op
  unfolding emit in_op spend_prev
  add_tx_in f prevs i in_ op =
      if nat_eq i 0 && (f.is_vote || f.is_coinbase || f.is_tbase)
      then pure op
      else if f.is_tspend
      then emit (in_op i in_ none 0 treasury_account_address (neg64 in_.value_in) op)
      else spend_prev i in_ op (lookup in_.previous_out_point prevs)

  unfoldable pub add_tx_ins_from :
      TxFlags → Map OutPoint PrevOutput → ℕ → List TxIn → Op → Action Error S Op
  unfolding add_tx_in
  add_tx_ins_from f prevs i [] op = pure op
  add_tx_ins_from f prevs i (in_ ∷ ins) op =
      add_tx_in f prevs i in_ op >>= add_tx_ins_from f prevs (i + 1) ins

  unfoldable pub add_tx_ins : TxFlags → Map OutPoint PrevOutput → Op → Action Error S Op
  unfolding add_tx_ins_from
  add_tx_ins f prevs op = add_tx_ins_from f prevs 0 op.tx.tx_in (record op { out = none })

  -- One round of the loop over the outputs.
  unfoldable pub add_tx_out : TxFlags → ℕ → TxOut → Op → Action Error S Op
  unfolding emit out_op
  add_tx_out f i out op =
      if nat_eq out.value 0
      then pure op
      else if (f.is_tadd || f.is_tbase) && nat_eq i 0
      then emit (out_op i out treasury_account_address op)
      else let account = dcr_pk_script_to_account_addr dcrd out.version out.pk_script in
        if str_eq account ""
        then pure (record op { account_version = out.version; account = account })
        else emit (out_op i out account op)

  unfoldable pub add_tx_outs_from : TxFlags → ℕ → List TxOut → Op → Action Error S Op
  unfolding add_tx_out
  add_tx_outs_from f i [] op = pure op
  add_tx_outs_from f i (out ∷ outs) op = add_tx_out f i out op >>= add_tx_outs_from f (i + 1) outs

  unfoldable pub add_tx_outs : TxFlags → Op → Action Error S Op
  unfolding add_tx_outs_from
  add_tx_outs f op =
      add_tx_outs_from f 0 op.tx.tx_out (record op { in_ = none; prev_output = none })

  -- A reversed transaction goes through its outputs before its inputs.
  unfoldable pub add_both : TxFlags → Map OutPoint PrevOutput → Op → Action Error S Op
  unfolding add_tx_ins add_tx_outs
  add_both f prevs op =
      if is_success op.status
      then (add_tx_ins f prevs op >>= add_tx_outs f)
      else (add_tx_outs f op >>= add_tx_ins f prevs)

  module _ (fetch_prev_outs : List OutPoint → Action Error S (Map OutPoint PrevOutput)) where
    unfoldable pub iterate_block_ops_in_tx : Op → Action Error S Op
    unfolding add_both
    iterate_block_ops_in_tx op = do
      let f = tx_flags dcrd op.tree op.tx_index op.tx
      prevs ← fetch_prev_outs (prev_outpoints f 0 op.tx.tx_in)
      add_both f prevs op

    unfoldable pub apply_txs_from : ℕ → List MsgTx → Op → Action Error S Op
    unfolding iterate_block_ops_in_tx
    apply_txs_from i [] op = pure op
    apply_txs_from i (tx ∷ txs) op =
        iterate_block_ops_in_tx
          (record op { tx = tx; tx_hash = dcrd.tx_hash tx; tx_index = i; op_index = 0 })
        >>= apply_txs_from (i + 1) txs

    unfoldable pub apply_txs : ℕ → OpStatus → List MsgTx → Action Error S (Unit {0})
    unfolding apply_txs_from
    apply_txs tree status txs = apply_txs_from 0 txs (new_op tree status) >>= λ _. pure tt

    -- `prev` is nil or a block.
    abbrev pub reverse_parent : MsgBlock → Option MsgBlock → Action Error S (Unit {0})
    reverse_parent b none = if approves_parent b then pure tt else throw needs_previous_block
    reverse_parent b (some prev) =
        if approves_parent b
        then pure tt
        else apply_txs tx_tree_regular OpStatus.reversed prev.transactions

    unfoldable pub iterate_block_ops : MsgBlock → Option MsgBlock → Action Error S (Unit {0})
    unfolding apply_txs
    iterate_block_ops b prev = do
      reverse_parent b prev
      apply_txs tx_tree_regular OpStatus.success b.transactions
      apply_txs tx_tree_stake OpStatus.success b.stransactions
