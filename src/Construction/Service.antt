-- ===== src/Construction/Service.antt =====
-- backend/svc_construction.go: the other handlers of the construction API.
use dcrros.Prelude.{
  ℕ, ◌+◌, ◌*◌, ◌/◌, ◌%◌, ◌^◌, String, Option, none, some, List, [], ◌∷◌, nat_eq, map, if◌then◌else◌,
}
use dcrros.Prelude.Keys.{string_comparable}
use dcrros.Prelude.Lists.{length}
use dcrros.Prelude.Maps.{Map, lookup}
use dcrros.Prelude.Words.{slt, neg64}
use dcrros.Prelude.Results.{Action, Result, ok, err}
use dcrros.Prelude.Outcomes.{◌>>=◌, error_to}
use dcrros.BackendDb.{Error, OutPoint}
use dcrros.Wire.{TxIn, MsgTx, Dcrd}
use dcrros.Types.Block.{PrevOutput}
use dcrros.Types.Block.Mempool.{Transaction, mempool_tx_to_rosetta}
use dcrros.Types.Errors.{GoError, RosettaError}
use dcrros.Types.Errors.Codes.{
  err_serialize_size_unspecified, err_ser_size_not_number, err_already_have_tx,
  err_tx_already_mined, err_processing_tx,
}
use dcrros.Types.Rosetta.{Value, Amount, AccountIdentifier, Operation, SigningPayload, Signature}
use dcrros.Types.Amount.{dcr_amount_to_rosetta}
use dcrros.Types.Text.{contains}
use dcrros.Types.Transactions.{WireLib, coded, rosetta_ops_to_tx}
use dcrros.Types.Transactions.Signing.{
  SignLib, extract_sign_payloads, extract_tx_signers, extract_prev_outputs_from_ops,
}
use dcrros.Types.Transactions.Signatures.{combine_tx_sigs}
use dcrros.Outputs.{prev_outs_fetcher}
use dcrros.Construction.{to_response, CodecLib, ConstructionTx, serialize, deserialize}

abbrev pub p2pkh_sig_script_ser_size : ℕ
p2pkh_sig_script_ser_size = 108

abbrev pub network_fee : ℕ
network_fee = 10000

-- An input without a signature script
unfoldable pub count_unsigned : List TxIn → ℕ
count_unsigned [] = 0
count_unsigned (in_ ∷ ins) =
    let rest = count_unsigned ins in
    if nat_eq (length in_.signature_script) 0 then 1 + rest else rest

-- x / 1000 on int64, towards zero
unfoldable pub thousandth : ℕ → ℕ
thousandth x = if slt x 0 then neg64 (neg64 x / 1000) else x / 1000

-- dcrutil.Amount(serSize * networkFee / 1000)
unfoldable pub fee_for : ℕ → ℕ
fee_for ser_size = thousandth (ser_size * network_fee % 2 ^ 64)

-- What ConstructionMetadata gives: a map, and the suggested fee.
pub record Suggestion : Type 0 where
  pub metadata : Map String Value
  pub suggested_fee : List Amount

-- int64 of a float64, for any value of that type.
module _ (int64_of : Value → ℕ) where
  abbrev pub size_of : Value → Result GoError ℕ
  size_of (Value.whole negative n) = ok (int64_of (Value.whole negative n))
  size_of Value.fraction = ok (int64_of Value.fraction)
  size_of (Value.int n) = ok n
  size_of _ = err (GoError.code err_ser_size_not_number)

  abbrev pub option_size : Option Value → Result GoError ℕ
  option_size none = err (GoError.code err_serialize_size_unspecified)
  option_size (some v) = size_of v

  -- `ConstructionMetadata`, of the options in the request
  unfoldable pub construction_metadata : Map String Value → Result (Option RosettaError) Suggestion
  construction_metadata options = to_response (
      option_size (lookup "serialize_size" options) >>= λ ser_size.
      ok (record { metadata = []; suggested_fee = dcr_amount_to_rosetta (fee_for ser_size) ∷ [] }))

-- An error of SendRawTransaction: a dcrjson.RPCError, by its code and text, or another.
pub data SendError : Type 0 where
  rpc_error : ℕ → String → SendError
  other_error : GoError → SendError

-- The codes of package dcrjson that are told apart.
pub record RpcCodes : Type 0 where
  pub duplicate_tx : ℕ
  pub misc : ℕ

unfoldable pub submit_error : RpcCodes → SendError → GoError
submit_error codes (other_error e) = e
submit_error codes (rpc_error code text) =
    if nat_eq code codes.duplicate_tx
    then coded err_already_have_tx text
    else if nat_eq code codes.misc
    then (if contains text "transaction already exists"
        then coded err_tx_already_mined text
        else coded err_processing_tx text)
    else GoError.other text

-- What ConstructionPayloads gives.
pub record Payloads : Type 0 where
  pub unsigned_transaction : String
  pub payloads : List SigningPayload

-- What ConstructionParse gives.
pub record Parsed : Type 0 where
  pub operations : List Operation
  pub metadata : Map String Value
  pub signers : List AccountIdentifier

-- An error that a callback passes on stays what it is; the others by their text.
abbrev pub as_go_error : Error → GoError
as_go_error (Error.plain t) = GoError.other t
as_go_error (Error.go e) = e
as_go_error Error.block_height_not_found = GoError.other "block height not found"
as_go_error Error.not_tip = GoError.other "specified block was not the tip"
as_go_error Error.block_already_processed = GoError.other "block already processed"
as_go_error Error.not_extending_tip = GoError.other "block not extending the current tip"
as_go_error Error.already_closed = GoError.other "DB already closed"
as_go_error Error.needs_previous_block = GoError.other "previous block required"

abbrev pub without_status : Operation → Operation
without_status op = record op { status = none }

abbrev pub fetch_with :
    (get_raw_tx : ℕ → Result GoError MsgTx)
    → Map OutPoint PrevOutput
    → List OutPoint
    → Action Error Transaction (Map OutPoint PrevOutput)
fetch_with get_raw_tx prevs targets tx =
    (error_to Error.go (prev_outs_fetcher get_raw_tx prevs targets), tx)

module _ (wire : WireLib) (sign : SignLib) (codec : CodecLib) where
  -- `ConstructionPreprocess`, with the size of a transaction that package wire gives: the options
  unfoldable pub construction_preprocess :
      (serialize_size : MsgTx → ℕ)
      → Map String Value
      → List Operation
      → Result (Option RosettaError) (Map String Value)
  construction_preprocess serialize_size metadata ops = to_response (
      rosetta_ops_to_tx wire sign.addresses metadata ops >>= λ tx. ok (
        (
          "serialize_size",
          Value.int
              ((count_unsigned tx.tx_in * p2pkh_sig_script_ser_size + serialize_size tx) % 2 ^ 64),
        )
        ∷ []))

  -- `ConstructionPayloads`, before RError.
  unfoldable pub payloads_for : Map String Value → List Operation → Result GoError Payloads
  payloads_for metadata ops = do
    tx ← rosetta_ops_to_tx wire sign.addresses metadata ops
    payloads ← extract_sign_payloads sign ops tx
    prevs ← extract_prev_outputs_from_ops sign wire ops
    unsigned ← serialize codec (record { tx = tx; prev_out_points = prevs })
    ok (record { unsigned_transaction = unsigned; payloads = payloads })

  unfoldable pub construction_payloads :
      Map String Value → List Operation → Result (Option RosettaError) Payloads
  construction_payloads metadata ops = to_response (payloads_for metadata ops)

  -- `ConstructionCombine`, before RError.
  unfoldable pub combine : List Signature → String → Result GoError String
  combine sigs unsigned = do
    ctrtx ← deserialize codec unsigned
    let signed = combine_tx_sigs sign sigs ctrtx.tx
    signed.0 >>= λ u.
        serialize codec (record { tx = signed.1; prev_out_points = ctrtx.prev_out_points })

  unfoldable pub construction_combine :
      List Signature → String → Result (Option RosettaError) String
  construction_combine sigs unsigned = to_response (combine sigs unsigned)

  -- `ConstructionHash`, with the text of the hash
  unfoldable pub construction_hash : (dcrd : Dcrd) → String → Result (Option RosettaError) String
  construction_hash dcrd signed =
      to_response
        (deserialize codec signed >>= λ ctrtx. ok (wire.hash_text (dcrd.tx_hash ctrtx.tx)))

  -- `ConstructionSubmit`, with dcrd's answer to a transaction
  unfoldable pub construction_submit :
      RpcCodes → (MsgTx → Result SendError ℕ) → String → Result (Option RosettaError) String
  construction_submit codes send_raw_transaction signed = to_response (
      deserialize codec signed >>= λ ctrtx.
      error_to (submit_error codes) (send_raw_transaction ctrtx.tx) >>= λ h. ok (wire.hash_text h))

  -- `ConstructionParse`, before RError.
  module _ (dcrd : Dcrd) (out_point_text : OutPoint → String)
      (get_raw_tx : ℕ → Result GoError MsgTx) where
    abbrev pub parse_tx : ConstructionTx → Result GoError Parsed
    parse_tx ctrtx = do
      rtx ← error_to as_go_error (
          mempool_tx_to_rosetta wire.hash_text out_point_text dcrd
            (fetch_with get_raw_tx ctrtx.prev_out_points) ctrtx.tx)
      signers ← extract_tx_signers sign rtx.operations ctrtx.tx
      ok (record {
        operations = map without_status rtx.operations;
        metadata = rtx.metadata;
        signers = signers;
      })

    unfoldable pub construction_parse : String → Result (Option RosettaError) Parsed
    construction_parse text = to_response (deserialize codec text >>= parse_tx)
