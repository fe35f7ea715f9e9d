-- ===== src/Types/Block/Amounts.antt =====
-- What the transactions of a block change of the balance of one account.
use dcrros.Prelude.{
  ℕ, ◌+◌, String, ◌&&◌, ◌||◌, Option, none, some, List, [], ◌∷◌, nat_eq, if◌then◌else◌,
}
use text.Mathlib.Text.{◌==◌ as str_eq}
use dcrros.Prelude.Words.{add64, neg64}
use dcrros.BackendDb.{OutPoint, outpoint_comparable}
use dcrros.Wire.{TxIn, TxOut, MsgTx, MsgBlock, Dcrd, tx_tree_regular, tx_tree_stake}
use dcrros.Types.Ops.{OpStatus}
use dcrros.Types.Address.{treasury_account_address, dcr_pk_script_to_account_addr}
use dcrros.Types.Block.{PrevOutput, TxFlags, tx_flags, signed_for, approves_parent}

-- An amount counts for the account if the operation names it.
abbrev pub counts : String → String → ℕ → ℕ
counts a account amount = if str_eq account a then amount else 0

module _ (dcrd : Dcrd) (prev_of : OutPoint → Option PrevOutput) (a : String) where
  unfoldable pub prev_spent : Option PrevOutput → ℕ
  prev_spent none = 0
  prev_spent (some prev) =
      let account = dcr_pk_script_to_account_addr dcrd prev.version prev.pk_script in
      if str_eq account "" then 0 else counts a account prev.amount

  -- What an input spends from the account: nothing where it has no previous output.
  unfoldable pub in_spent : TxFlags → ℕ → TxIn → ℕ
  unfolding prev_spent
  in_spent f i in_ =
      if nat_eq i 0 && (f.is_vote || f.is_coinbase || f.is_tbase)
      then 0
      else if f.is_tspend
      then counts a treasury_account_address in_.value_in
      else prev_spent (prev_of in_.previous_out_point)

  unfoldable pub ins_spent : TxFlags → ℕ → List TxIn → ℕ
  unfolding in_spent
  ins_spent f i [] = 0
  ins_spent f i (in_ ∷ ins) = in_spent f i in_ + ins_spent f (i + 1) ins

  -- What an output pays to the account.
  unfoldable pub out_paid : TxFlags → ℕ → TxOut → ℕ
  out_paid f i out =
      if nat_eq out.value 0
      then 0
      else if (f.is_tadd || f.is_tbase) && nat_eq i 0
      then counts a treasury_account_address out.value
      else let account = dcr_pk_script_to_account_addr dcrd out.version out.pk_script in
        if str_eq account "" then 0 else counts a account out.value

  unfoldable pub outs_paid : TxFlags → ℕ → List TxOut → ℕ
  unfolding out_paid
  outs_paid f i [] = 0
  outs_paid f i (out ∷ outs) = out_paid f i out + outs_paid f (i + 1) outs

  -- The change of the account by a transaction at an index of a tree: its outputs less its inputs,
  -- and the negative of that if it is reversed.
  unfoldable pub tx_net : ℕ → OpStatus → ℕ → MsgTx → ℕ
  unfolding ins_spent outs_paid
  tx_net tree st i tx =
      let f = tx_flags dcrd tree i tx in
      signed_for st (add64 (outs_paid f 0 tx.tx_out) (neg64 (ins_spent f 0 tx.tx_in)))

  unfoldable pub txs_net : ℕ → OpStatus → ℕ → List MsgTx → ℕ
  unfolding tx_net
  txs_net tree st i [] = 0
  txs_net tree st i (tx ∷ txs) = tx_net tree st i tx + txs_net tree st (i + 1) txs

  -- The change by a block: its own regular and stake transactions, and the regular ones of the
  -- parent, reversed, if it disapproves that.
  unfoldable pub parent_net : MsgBlock → Option MsgBlock → ℕ
  unfolding txs_net
  parent_net b none = 0
  parent_net b (some prev) =
      if approves_parent b then 0 else txs_net tx_tree_regular OpStatus.reversed 0 prev.transactions

  unfoldable pub block_net : MsgBlock → Option MsgBlock → ℕ
  unfolding txs_net parent_net
  block_net b prev =
      parent_net b prev
      + (txs_net tx_tree_regular OpStatus.success 0 b.transactions
          + txs_net tx_tree_stake OpStatus.success 0 b.stransactions)
