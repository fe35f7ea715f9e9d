-- ===== src/Types/Transactions.antt =====
-- types/transactions.go: Rosetta operations to a transaction.
pub mod Signing
pub mod OutPoints
pub mod RoundTrip
pub mod Metadata
pub mod Signed
pub mod Signatures
pub mod Samples
mod Tests
use dcrros.Prelude.{
  ℕ, ◌-◌, ◌%◌, ◌^◌, String, Bool, true, false, not, Option, none, some, List, [], ◌∷◌, ◌++◌, nat_eq,
  if◌then◌else◌,
}
use text.Mathlib.Text.{◌==◌ as str_eq}
use dcrros.Prelude.Maps.{Map}
use dcrros.Prelude.Words.{slt, neg64}
use dcrros.Prelude.Results.{Result, ok, err, panic}
use dcrros.Prelude.Outcomes.{◌>>=◌, error_to}
use dcrros.BackendDb.{OutPoint}
use dcrros.Wire.{TxIn, TxOut, MsgTx}
use dcrros.Types.Ops.{OpType, r_type}
use dcrros.Types.Errors.{GoError, CodeError, as_error, with_msg}
use dcrros.Types.Errors.Codes.{
  err_nil_account, err_unkown_op_type, err_invalid_op, err_invalid_tx_metadata,
}
use dcrros.Types.Rosetta.{Value, CoinAction, CoinChange, AccountIdentifier, Operation}
use dcrros.Types.Text.{byte_length, parse_uint, split_colon}
use dcrros.Types.Amount.{rosetta_to_dcr_amount}
use dcrros.Types.Metadata.{
  MetaError, metadata_int8, metadata_uint16, metadata_uint32, metadata_hex, or_default,
}
use dcrros.Types.Account.{AddressLib, rosetta_account_to_pk_script}

-- What transactions.go calls of dcrd's packages chainhash and wire: wire.NewMsgTx, wire.NewTxIn with
-- a nil script, and the texts of hashes.
pub record WireLib : Type 0 where
  pub new_msg_tx : MsgTx
  pub new_tx_in : OutPoint → ℕ → TxIn
  pub hash_text : ℕ → String
  pub decode_hash : String → Option ℕ

abbrev pub coded : ℕ → String → GoError
coded code message = GoError.full (with_msg message (as_error code))

abbrev pub spends : CoinAction → Bool
spends CoinAction.coin_spent = true
spends _ = false

abbrev pub is_spent : Option CoinChange → Bool
is_spent none = false
is_spent (some c) = spends c.coin_action

-- if opAmt < 0 { opAmt = -opAmt }
abbrev pub magnitude : ℕ → ℕ
magnitude x = if slt x 0 then neg64 x else x

module _ (lib : WireLib) where
  abbrev pub indexed : Option ℕ → Option ℕ → Result GoError OutPoint
  indexed none index = err (GoError.other "invalid hash at start of outpoint string")
  indexed (some h) none = err (GoError.other "invalid int at end of outpoint string")
  indexed (some h) (some i) = ok (record { hash = h; index = i; tree = 0 })

  abbrev pub out_point_of : List String → Result GoError OutPoint
  out_point_of (h ∷ i ∷ []) =
      if not (nat_eq (byte_length h) 64)
      then err (GoError.other "hex part of outpoint does not encode 32 bytes")
      else indexed (lib.decode_hash h) (parse_uint 10 32 i)
  out_point_of _ = err (GoError.other "string does not have outpoint format '<hex>:<index>''")

  -- `decodeOutPoint`
  unfoldable pub decode_out_point : String → Result GoError OutPoint
  decode_out_point s = out_point_of (split_colon s)

  abbrev pub identified : Option String → Result GoError OutPoint
  identified none = err (GoError.other "coin_change.coin_identifier must not be nil")
  identified (some id) = decode_out_point id

  -- `coinChangeToOutPoint`
  unfoldable pub coin_change_to_out_point : Option CoinChange → Result GoError OutPoint
  coin_change_to_out_point none = err (GoError.other "coin_change must not be nil")
  coin_change_to_out_point (some c) = identified c.coin_identifier

  -- The metadata of a debit, over the input made for it.
  abbrev pub fill_in : Map String Value → TxIn → Result GoError TxIn
  fill_in m in_ = do
    sequence ←
        or_default "sequence" (GoError.other "unable to decode sequence: %v") in_.sequence
          (metadata_uint32 m "sequence")
    height ←
        or_default "block_height" (GoError.other "unable to decode block_height: %v")
          in_.block_height (metadata_uint32 m "block_height")
    index ←
        or_default "block_index" (GoError.other "unable to decode block_index: %v") in_.block_index
          (metadata_uint32 m "block_index")
    script ←
        or_default "signature_script" (GoError.other "unable to decode signatureScript: %v")
          in_.signature_script (metadata_hex m "signature_script")
    ok (record in_ {
      sequence = sequence;
      block_height = height;
      block_index = index;
      signature_script = script;
    })

  -- The case of a debit in `rosettaOpToTx`: its input.
  unfoldable pub debit_in : Operation → ℕ → Result GoError TxIn
  debit_in op amount = do
    prev_out ←
        error_to (GoError.wrapped "invalid coin_change in debit op: %w")
          (coin_change_to_out_point op.coin_change)
    if not (is_spent op.coin_change)
        then err (GoError.other "debit operation needs a coin_spent coin_action")
        else (or_default "prev_tree" (GoError.other "unable to decode prev_tree: %v") 0
              (metadata_int8 op.metadata "prev_tree")
            >>= λ tree.
                fill_in op.metadata
                  (lib.new_tx_in (record prev_out { tree = tree }) (magnitude amount)))

  module _ (addresses : AddressLib) where
    abbrev pub account_out : Option AccountIdentifier → ℕ → Result GoError TxOut
    account_out none amount = err (GoError.code err_nil_account)
    account_out (some account) amount = do
      script ←
          error_to (λ _. GoError.other "unable to decode account into pkscript: %v")
            (rosetta_account_to_pk_script addresses account)
      ok (record { value = amount; version = script.0; pk_script = script.1 })

    -- The case of a credit: its output.
    unfoldable pub credit_out : Operation → ℕ → Result GoError TxOut
    credit_out op amount = account_out op.account amount

    -- `rosettaOpToTx`
    unfoldable pub rosetta_op_to_tx : Operation → MsgTx → Result GoError MsgTx
    rosetta_op_to_tx op tx = do
      amount ← rosetta_to_dcr_amount op.amount
      if str_eq op.type (r_type OpType.debit)
          then (debit_in op amount >>= λ in_. ok (record tx { tx_in = tx.tx_in ++ in_ ∷ [] }))
          else if str_eq op.type (r_type OpType.credit)
          then (credit_out op amount >>= λ out. ok (record tx { tx_out = tx.tx_out ++ out ∷ [] }))
          else err (GoError.code err_unkown_op_type)

    -- for i, op := range ops
    unfoldable pub add_ops : List Operation → MsgTx → Result GoError MsgTx
    add_ops [] tx = ok tx
    add_ops (op ∷ ops) tx =
        error_to (λ _. coded err_invalid_op "error converting op %d to tx: %v")
          (rosetta_op_to_tx op tx)
        >>= add_ops ops

    abbrev pub meta_error : String → GoError
    meta_error message = coded err_invalid_tx_metadata message

    -- `RosettaOpsToTx`
    unfoldable pub rosetta_ops_to_tx : Map String Value → List Operation → Result GoError MsgTx
    rosetta_ops_to_tx meta ops =
        let new = lib.new_msg_tx in
        do
          version ←
              or_default "version" (meta_error "unable to decode tx version: %v") new.version
                (metadata_uint16 meta "version")
          expiry ←
              or_default "expiry" (meta_error "unable to decode expiry: %v") new.expiry
                (metadata_uint32 meta "expiry")
          lock_time ←
              or_default "locktime" (meta_error "unable to decode locktime: %v") new.lock_time
                (metadata_uint32 meta "locktime")
          add_ops ops (record new { version = version; expiry = expiry; lock_time = lock_time })
