-- ===== src/Types/Errors/Codes.antt =====
-- types/errors.go: the error codes and their default messages. An ErrorCode is an int32, kept as a
-- bit pattern below 2 ^ 32.
use dcrros.Prelude.{ℕ, String, [], ◌∷◌}
use dcrros.Prelude.Maps.{Map}

abbrev pub err_unknown : ℕ
err_unknown = 0

abbrev pub err_request_canceled : ℕ
err_request_canceled = 1

abbrev pub err_invalid_chain_hash : ℕ
err_invalid_chain_hash = 2

abbrev pub err_invalid_argument : ℕ
err_invalid_argument = 3

abbrev pub err_block_not_found : ℕ
err_block_not_found = 4

abbrev pub err_tx_not_found : ℕ
err_tx_not_found = 5

abbrev pub err_unimplemented : ℕ
err_unimplemented = 6

abbrev pub err_invalid_transaction : ℕ
err_invalid_transaction = 7

abbrev pub err_invalid_hex_string : ℕ
err_invalid_hex_string = 8

abbrev pub err_already_have_tx : ℕ
err_already_have_tx = 9

abbrev pub err_tx_already_mined : ℕ
err_tx_already_mined = 10

abbrev pub err_processing_tx : ℕ
err_processing_tx = 11

abbrev pub err_invalid_account_id_addr : ℕ
err_invalid_account_id_addr = 12

abbrev pub err_block_index_after_tip : ℕ
err_block_index_after_tip = 13

abbrev pub err_unsupported_curve_type : ℕ
err_unsupported_curve_type = 14

abbrev pub err_invalid_secp256k1_pub_key : ℕ
err_invalid_secp256k1_pub_key = 15

abbrev pub err_not_compressed_secp256k1_key : ℕ
err_not_compressed_secp256k1_key = 16

abbrev pub err_unspecified_address_version : ℕ
err_unspecified_address_version = 17

abbrev pub err_unsupported_address_version : ℕ
err_unsupported_address_version = 18

abbrev pub err_unsupported_address_algo : ℕ
err_unsupported_address_algo = 19

abbrev pub err_unkown_op_type : ℕ
err_unkown_op_type = 20

abbrev pub err_invalid_op : ℕ
err_invalid_op = 21

abbrev pub err_invalid_tx_metadata : ℕ
err_invalid_tx_metadata = 22

abbrev pub err_incorrect_sig_count : ℕ
err_incorrect_sig_count = 23

abbrev pub err_unsupported_signature_type : ℕ
err_unsupported_signature_type = 24

abbrev pub err_serialize_size_unspecified : ℕ
err_serialize_size_unspecified = 25

abbrev pub err_ser_size_not_number : ℕ
err_ser_size_not_number = 26

abbrev pub err_incorrect_sig_size : ℕ
err_incorrect_sig_size = 27

abbrev pub err_invalid_sig : ℕ
err_invalid_sig = 28

abbrev pub err_invalid_pub_key : ℕ
err_invalid_pub_key = 29

abbrev pub err_chain_unavailable : ℕ
err_chain_unavailable = 30

abbrev pub err_prev_out_tx_not_found : ℕ
err_prev_out_tx_not_found = 31

abbrev pub err_prev_out_index_not_found : ℕ
err_prev_out_index_not_found = 32

abbrev pub err_nil_account : ℕ
err_nil_account = 33

-- The number of codes, one past the last.
abbrev pub nb_error_codes : ℕ
nb_error_codes = 34

unfoldable pub error_code_msgs : Map ℕ String
error_code_msgs =
    (err_unknown, "unknown error")
    ∷ (err_request_canceled, "request canceled")
    ∷ (err_invalid_chain_hash, "invalid chain hash")
    ∷ (err_invalid_argument, "invalid argument")
    ∷ (err_block_not_found, "block not found")
    ∷ (err_tx_not_found, "tx not found")
    ∷ (err_unimplemented, "unimplemented")
    ∷ (err_invalid_transaction, "invalid transaction")
    ∷ (err_invalid_hex_string, "invalid hex string")
    ∷ (err_already_have_tx, "already have transaction")
    ∷ (err_tx_already_mined, "tx already mined")
    ∷ (err_processing_tx, "error processing tx")
    ∷ (err_invalid_account_id_addr, "invalid address in account identifier")
    ∷ (err_block_index_after_tip, "block index after current mainchain tip")
    ∷ (err_unsupported_curve_type, "unsupported curve type")
    ∷ (err_invalid_secp256k1_pub_key, "invalid secp256k1 pubkey")
    ∷ (err_not_compressed_secp256k1_key, "secp256k1 pubkey is not in compressed format")
    ∷ (err_unspecified_address_version, "address version was not specified")
    ∷ (err_unsupported_address_version, "unsupported address version")
    ∷ (err_unsupported_address_algo, "unsupported address algo")
    ∷ (err_unkown_op_type, "unknown op type")
    ∷ (err_invalid_op, "invalid op")
    ∷ (err_invalid_tx_metadata, "invalid tx metadata")
    ∷ (err_incorrect_sig_count, "incorrect signature count")
    ∷ (err_unsupported_signature_type, "unsupported signature type")
    ∷ (err_serialize_size_unspecified, "serialize_size was not specified")
    ∷ (err_ser_size_not_number, "serialize_size is not a number")
    ∷ (err_incorrect_sig_size, "incorrect signature size")
    ∷ (err_invalid_sig, "invalid signature")
    ∷ (err_invalid_pub_key, "invalid public key")
    ∷ (err_chain_unavailable, "chain unavailable")
    ∷ (err_prev_out_tx_not_found, "previous output tx not found")
    ∷ (err_prev_out_index_not_found, "previous output tx index not found")
    ∷ (err_nil_account, "account cannot be nil")
    ∷ []
