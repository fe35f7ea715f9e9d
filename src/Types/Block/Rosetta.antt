-- ===== src/Types/Block/Rosetta.antt =====
-- types/block.go: `ROp`, the Rosetta operation of an operation.
use dcrros.Prelude.{ℕ, ◌%◌, ◌^◌, String, Option, none, some, [], ◌∷◌, if◌then◌else◌}
use text.Mathlib.Text.{◌==◌ as str_eq}
use dcrros.Prelude.Maps.{Map}
use dcrros.Prelude.Results.{Result, ok, panic}
use dcrros.BackendDb.{OutPoint}
use dcrros.Wire.{TxIn}
use dcrros.Types.Ops.{OpType, is_reversed, r_type, status}
use dcrros.Types.Block.{Op}
use dcrros.Types.Address.{treasury_account_address}
use dcrros.Types.Errors.{GoError}
use dcrros.Types.Rosetta.{Value, CoinAction, CoinChange, Operation}
use dcrros.Types.Amount.{dcr_amount_to_rosetta}

-- The texts of hashes and outpoints, which dcrd gives.
module _ (hash_text : ℕ → String) (out_point_text : OutPoint → String) where
  abbrev pub in_metadata : ℕ → TxIn → Map String Value
  in_metadata io_index in_ =
      ("input_index", Value.int io_index)
      ∷ ("prev_hash", Value.text (hash_text in_.previous_out_point.hash))
      ∷ ("prev_index", Value.uint32 in_.previous_out_point.index)
      ∷ ("prev_tree", Value.int8 in_.previous_out_point.tree)
      ∷ ("sequence", Value.uint32 in_.sequence)
      ∷ ("block_height", Value.uint32 in_.block_height)
      ∷ ("block_index", Value.uint32 in_.block_index)
      ∷ ("signature_script", Value.bytes in_.signature_script)
      ∷ []

  -- The treasury has no coins.
  abbrev pub coin_change_of : String → CoinAction → OutPoint → Option CoinChange
  coin_change_of account action outp =
      if str_eq account treasury_account_address
      then none
      else (some (record { coin_identifier = some (out_point_text outp); coin_action = action }))

  -- The outpoint that an operation creates, with Index: uint32(op.IOIndex).
  abbrev pub created_by : Op → OutPoint
  created_by op = record { hash = op.tx_hash; index = op.io_index % 2 ^ 32; tree = op.tree }

  abbrev pub with_coin : Op → Map String Value → Option CoinChange → Operation
  with_coin op meta coin_change = record {
    index = op.op_index;
    type = r_type op.type;
    status = status op.status;
    account = some (record {
      address = op.account;
      metadata = some (("script_version", Value.uint16 op.account_version) ∷ []);
    });
    amount = some (dcr_amount_to_rosetta op.amount);
    metadata = meta;
    coin_change = coin_change;
  }

  -- op.In of a debit: a nil input panics.
  abbrev pub debit_r_op : Op → Option TxIn → Result GoError Operation
  debit_r_op op none = panic
  debit_r_op op (some in_) = ok (
      with_coin op (in_metadata op.io_index in_) (
        coin_change_of op.account
          (if is_reversed op.status then CoinAction.coin_created else CoinAction.coin_spent)
          in_.previous_out_point))

  abbrev pub credit_r_op : Op → Operation
  credit_r_op op = with_coin op (("output_index", Value.int op.io_index) ∷ []) (
      coin_change_of op.account
        (if is_reversed op.status then CoinAction.coin_spent else CoinAction.coin_created)
        (created_by op))

  abbrev pub r_op_as : OpType → Op → Result GoError Operation
  r_op_as OpType.debit op = debit_r_op op op.in_
  r_op_as _ op = ok (credit_r_op op)

  -- `ROp`
  unfoldable pub r_op : Op → Result GoError Operation
  r_op op = r_op_as op.type op
