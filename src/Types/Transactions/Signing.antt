-- ===== src/Types/Transactions/Signing.antt =====
-- types/transactions.go: what is to be signed, who signs, and the outputs that are spent.
use dcrros.Prelude.{
  ℕ, ◌+◌, String, Bool, not, ◌||◌, Option, none, some, List, [], ◌∷◌, ltb, leb, nat_eq,
  if◌then◌else◌,
}
use text.Mathlib.Text.{◌==◌ as str_eq}
use dcrros.Prelude.Lists.{length, get_elem?}
use dcrros.Prelude.Maps.{Map, insert}
use dcrros.Prelude.Results.{Result, ok, err}
use dcrros.Prelude.Outcomes.{◌>>=◌, error_to}
use dcrros.BackendDb.{OutPoint, outpoint_comparable}
use dcrros.Wire.{TxIn, MsgTx}
use dcrros.Types.Ops.{OpType, r_type}
use dcrros.Types.Block.{PrevOutput}
use dcrros.Types.Errors.{GoError}
use dcrros.Types.Errors.Codes.{err_invalid_op}
use dcrros.Types.Rosetta.{Value, AccountIdentifier, Operation, SignatureType, SigningPayload}
use dcrros.Types.Text.{has_0x}
use dcrros.Types.Amount.{rosetta_to_dcr_amount}
use dcrros.Types.Metadata.{metadata_uint16}
use dcrros.Types.Account.{AddressLib}
use dcrros.Types.Transactions.{WireLib, coded, magnitude, coin_change_to_out_point, is_spent}

-- What transactions.go calls of dcrd to sign: the hash that an input's signature is of, public keys,
-- signatures given as 64 bytes, their DER form, the script that pushes byte sequences, and
-- whether an address is of the P2PKH kind for ecdsa.
pub record SignLib : Type 1 where
  pub addresses : AddressLib
  pub is_p2pkh : AddressLib.Address addresses → Bool
  pub calc_signature_hash : List ℕ → MsgTx → ℕ → Option (List ℕ)
  pub Key : Type 0
  pub parse_pub_key : List ℕ → Option Key
  pub verify : List ℕ → List ℕ → Key → Bool
  pub der : List ℕ → List ℕ
  pub push_script : List (List ℕ) → Option (List ℕ)
  pub sig_hash_all : ℕ

module _ (lib : SignLib) where
  abbrev pub PrevOut : Type 0
  PrevOut = PrevOutput × AddressLib.Address lib.addresses

  abbrev pub output_at :
      Operation → ℕ → Option (AddressLib.Address lib.addresses) → Result GoError (Option PrevOut)
  output_at op version none = err (GoError.other "unable to decode address: %v")
  output_at op version (some a) = do
    amount ← rosetta_to_dcr_amount op.amount
    ok (
        some (
          record {
            pk_script = lib.addresses.payment_script a;
            version = version;
            amount = magnitude amount;
          },
          a,
        ))

  abbrev pub is_raw : ℕ → String → Bool
  is_raw version address = not (nat_eq version 0) || has_0x address

  abbrev pub output_of_version :
      Operation → String → Map String Value → Result GoError (Option PrevOut)
  output_of_version op address metadata = do
    version ←
        error_to (λ _. GoError.other "unable to decode script_version: %v")
          (metadata_uint16 metadata "script_version")
    if is_raw version address
        then ok none
        else output_at op version (lib.addresses.decode_address address)

  abbrev pub output_of_metadata :
      Operation → String → Option (Map String Value) → Result GoError (Option PrevOut)
  output_of_metadata op address none = err (GoError.other "account.metadata cannot be nil")
  output_of_metadata op address (some metadata) = output_of_version op address metadata

  abbrev pub output_of : Operation → Option AccountIdentifier → Result GoError (Option PrevOut)
  output_of op none = err (GoError.other "account cannot be nil")
  output_of op (some account) = output_of_metadata op account.address account.metadata

  -- `prevOutputFromDebitOp`: the output and the address are nil together.
  unfoldable pub prev_output_from_debit_op : Operation → Result GoError (Option PrevOut)
  prev_output_from_debit_op op =
      if not (str_eq op.type (r_type OpType.debit))
      then err (GoError.other "op must be a debit to extract prevOutput")
      else output_of op op.account

  abbrev pub payload_of : Operation → Option (List ℕ) → Result GoError (Option SigningPayload)
  payload_of op none = err (GoError.other "error during calcSigHash: %v")
  payload_of op (some hash) =
      ok
        (some (record { account = op.account; bytes = hash; signature_type = SignatureType.ecdsa }))

  abbrev pub payload_from :
      Operation → MsgTx → ℕ → Option PrevOut → Result GoError (Option SigningPayload)
  payload_from op tx idx none = ok none
  payload_from op tx idx (some (prev, a)) =
      if lib.is_p2pkh a
      then payload_of op (lib.calc_signature_hash prev.pk_script tx idx)
      else ok none

  -- `extractInputSignPayload`
  unfoldable pub extract_input_sign_payload :
      Operation → MsgTx → ℕ → Result GoError (Option SigningPayload)
  extract_input_sign_payload op tx idx =
      if leb (length tx.tx_in) idx
      then err (GoError.other "trying to sign inexistent input %d")
      else (prev_output_from_debit_op op >>= payload_from op tx idx)

  abbrev pub with_some : {A : Type 0} → Option A → List A → List A
  with_some none xs = xs
  with_some (some x) xs = x ∷ xs

  -- The loop of `ExtractSignPayloads`, from an operation and an input on.
  unfoldable pub payloads_from : List Operation → MsgTx → ℕ → Result GoError (List SigningPayload)
  payloads_from [] tx idx = ok []
  payloads_from (op ∷ ops) tx idx =
      let here =
        error_to (λ _. coded err_invalid_op "error generating payload for op %d: %v")
          (extract_input_sign_payload op tx idx) in
      let is_debit = str_eq op.type (r_type OpType.debit) in
      let rest = payloads_from ops tx (if is_debit then idx + 1 else idx) in
      if is_debit then (here >>= λ p. rest >>= λ ps. ok (with_some p ps)) else rest

  unfoldable pub extract_sign_payloads :
      List Operation → MsgTx → Result GoError (List SigningPayload)
  extract_sign_payloads ops tx = payloads_from ops tx 0

  abbrev pub signer_of_metadata :
      AccountIdentifier → Option (Map String Value) → Result GoError (Option AccountIdentifier)
  signer_of_metadata account none = err (GoError.other "nil metadata")
  signer_of_metadata account (some metadata) = do
    version ←
        error_to (λ _. GoError.other "unable to decode script_version: %v")
          (metadata_uint16 metadata "script_version")
    if is_raw version account.address then ok none else ok (some account)

  abbrev pub signer_of : Option AccountIdentifier → Result GoError (Option AccountIdentifier)
  signer_of none = err (GoError.other "nil account")
  signer_of (some account) = signer_of_metadata account account.metadata

  -- `extractInputSigner`
  unfoldable pub extract_input_signer : Operation → Result GoError (Option AccountIdentifier)
  extract_input_signer op = signer_of op.account

  -- An input without a signature script has no signer.
  abbrev pub signer_at : Operation → Option TxIn → Result GoError (Option AccountIdentifier)
  signer_at op none = err (GoError.other "debit without corresponding input %d")
  signer_at op (some in_) =
      if ltb 0 (length in_.signature_script)
      then error_to (λ _. coded err_invalid_op "error extracting input signer for op %d: %v")
          (extract_input_signer op)
      else ok none

  unfoldable pub signers_from : List Operation → MsgTx → ℕ → Result GoError (List AccountIdentifier)
  signers_from [] tx idx = ok []
  signers_from (op ∷ ops) tx idx =
      let here = signer_at op (get_elem? tx.tx_in idx) in
      let is_debit = str_eq op.type (r_type OpType.debit) in
      let rest = signers_from ops tx (if is_debit then idx + 1 else idx) in
      if is_debit then (here >>= λ a. rest >>= λ signers. ok (with_some a signers)) else rest

  -- `ExtractTxSigners`
  unfoldable pub extract_tx_signers :
      List Operation → MsgTx → Result GoError (List AccountIdentifier)
  extract_tx_signers ops tx = signers_from ops tx 0

  module _ (wire : WireLib) where
    abbrev pub output_entry :
        Operation
        → Map OutPoint PrevOutput
        → Option PrevOut
        → Result GoError (Map OutPoint PrevOutput)
    output_entry op res none = ok res
    output_entry op res (some (prev, a)) = do
      out_point ←
          error_to (λ _. GoError.other "debit op %d has invalid coin_change: %v")
            (coin_change_to_out_point wire op.coin_change)
      if not (is_spent op.coin_change)
          then err (GoError.other "debit op %d needs a coin_spent coin_action")
          else ok (insert out_point prev res)

    -- One round of `ExtractPrevOutputsFromOps`
    abbrev pub output_from :
        Operation → Map OutPoint PrevOutput → Result GoError (Map OutPoint PrevOutput)
    output_from op res =
        if not (str_eq op.type (r_type OpType.debit))
        then ok res
        else (error_to (λ _. GoError.other "unable to extract prevOutput from debit %d: %v")
              (prev_output_from_debit_op op)
            >>= output_entry op res)

    unfoldable pub outputs_from :
        List Operation → Map OutPoint PrevOutput → Result GoError (Map OutPoint PrevOutput)
    outputs_from [] res = ok res
    outputs_from (op ∷ ops) res = output_from op res >>= outputs_from ops

    -- `ExtractPrevOutputsFromOps`
    unfoldable pub extract_prev_outputs_from_ops :
        List Operation → Result GoError (Map OutPoint PrevOutput)
    extract_prev_outputs_from_ops ops = outputs_from ops []
