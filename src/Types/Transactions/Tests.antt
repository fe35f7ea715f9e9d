-- ===== src/Types/Transactions/Tests.antt =====
-- Amounts, addresses, outpoints and a transaction read back, and its signatures.
use dcrros.Prelude.{◌≡◌, refl, some, [], ◌∷◌, arith}
use dcrros.Prelude.Words.{neg64}
use dcrros.Prelude.Results.{ok, err}
use dcrros.BackendDb.{OutPoint}
use dcrros.Wire.{TxIn, MsgTx}
use dcrros.Types.Ops.{OpType, OpStatus}
use dcrros.Types.Block.{Op, new_op}
use dcrros.Types.Address.{pk_script_to_raw_account_addr}
use dcrros.Types.Errors.{GoError}
use dcrros.Types.Errors.Codes.{err_invalid_sig}
use dcrros.Types.Samples.{dcrd, output}
use dcrros.Types.Rosetta.{Value, AccountIdentifier}
use dcrros.Types.Amount.{
  dcr_amount_to_rosetta, rosetta_to_dcr_amount, rosetta_to_dcr_amount-dcr_amount_to_rosetta,
}
use dcrros.Types.Account.{raw_account_addr_to_pk_script, rosetta_account_to_pk_script}
use dcrros.Types.Account.RoundTrip.{
  account_of, raw_account_addr_to_pk_script-pk_script_to_raw_account_addr,
  rosetta_account_to_pk_script-account_of,
}
use dcrros.Types.Transactions.{coded, rosetta_ops_to_tx}
use dcrros.Types.Transactions.RoundTrip.{tx_metadata, tx_ops, rosetta_ops_to_tx-tx_ops}
use dcrros.Types.Transactions.Signatures.{sig_script, combine_tx_sigs}
use dcrros.Types.Transactions.Signed.{combine_tx_sigs_failed}
use dcrros.Types.Transactions.Samples.{
  lib, lib-IsWireLib, addresses, dsa-IsPayable, sign_lib, signature,
}

abbrev spent : OutPoint
spent = record { hash = 77; index = 3; tree = 1 }

abbrev spending : TxIn
spending = record {
  previous_out_point = spent;
  sequence = 5;
  value_in = 60;
  block_height = 100;
  block_index = 2;
  signature_script = 16 ∷ 32 ∷ [];
}

-- It spends one output and pays 50 to Dsa.
abbrev payment : MsgTx
payment = record {
  version = 1;
  tx_in = spending ∷ [];
  tx_out = output 7 50 ∷ [];
  lock_time = 0;
  expiry = 9;
}

abbrev dsa : AccountIdentifier
dsa = record { address = "Dsa"; metadata = some (("script_version", Value.uint16 0) ∷ []) }

rosetta_to_dcr_amount-dcr_amount_to_rosetta_example :
    rosetta_to_dcr_amount (some (dcr_amount_to_rosetta (neg64 250))) ≡ ok (neg64 250)
rosetta_to_dcr_amount-dcr_amount_to_rosetta_example =
    rosetta_to_dcr_amount-dcr_amount_to_rosetta (neg64 250) (omega arith)

raw_account_addr_to_pk_script-pk_script_to_raw_account_addr_example :
    raw_account_addr_to_pk_script 32768 (pk_script_to_raw_account_addr 32768 (1 ∷ 255 ∷ []))
    ≡ err (GoError.other "invalid version int: %v")
raw_account_addr_to_pk_script-pk_script_to_raw_account_addr_example =
    raw_account_addr_to_pk_script-pk_script_to_raw_account_addr 32768 (1 ∷ 255 ∷ []) (omega arith)
      (omega arith, (omega arith, tt))

rosetta_account_to_pk_script-account_of_example :
    rosetta_account_to_pk_script addresses (account_of dcrd 0 (7 ∷ [])) ≡ ok (0, 7 ∷ [])
rosetta_account_to_pk_script-account_of_example =
    rosetta_account_to_pk_script-account_of dcrd addresses 0 (7 ∷ []) dsa-IsPayable (omega arith)
      (omega arith, tt)

rosetta_ops_to_tx-tx_ops_example :
    rosetta_ops_to_tx lib addresses (tx_metadata payment) (tx_ops lib dcrd dsa payment) ≡ ok payment
rosetta_ops_to_tx-tx_ops_example =
    rosetta_ops_to_tx-tx_ops lib lib-IsWireLib dcrd addresses dsa payment
      ((omega arith, (omega arith, (omega arith, (omega arith, (omega arith, tt))))), tt)
      ((omega arith, (omega arith, ((omega arith, tt), dsa-IsPayable))), tt)

abbrev spend_op : Op
spend_op = record (new_op 0 OpStatus.success) {
  account = "Dsa";
  type = OpType.debit;
  amount = neg64 60;
  in_ = some spending;
}

-- The second signature is by another key.
combine_tx_sigs_failed_example :
    combine_tx_sigs sign_lib
      (signature 4 4 ∷ signature 5 4 ∷ [])
      (record payment { tx_in = spending ∷ spending ∷ [] })
    ≡ (
      err (coded err_invalid_sig "sig at index %d failed verification"),
      record payment {
        tx_in = record spending { signature_script = 4 ∷ 1 ∷ 4 ∷ [] } ∷ spending ∷ [];
      },
    )
unfolding sig_script
combine_tx_sigs_failed_example =
    combine_tx_sigs_failed sign_lib (signature 4 4 ∷ []) ((4 ∷ 1 ∷ 4 ∷ []) ∷ []) (signature 5 4) []
      (record payment { tx_in = spending ∷ spending ∷ [] })
      (coded err_invalid_sig "sig at index %d failed verification") (refl, tt) refl refl
