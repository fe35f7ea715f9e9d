-- ===== src/Construction/Tests.antt =====
-- The construction API on a payment with one input.
use dcrros.Prelude.{
  ℕ, ◌^◌, ◌≡◌, ◌≢◌, refl, String, true, false, none, some, [], ◌∷◌, if◌then◌else◌, arith,
}
use dcrros.Prelude.Maps.{Map, lookup}
use dcrros.Prelude.Results.{ok, err, panic}
use dcrros.BackendDb.{OutPoint, outpoint_comparable}
use dcrros.Types.Address.{hex_encode}
use dcrros.Types.Block.{PrevOutput}
use dcrros.Types.Errors.{GoError}
use dcrros.Types.Errors.Codes.{err_tx_not_found}
use dcrros.Types.Rosetta.{Value, AccountIdentifier, Operation, CurveType, PublicKey}
use dcrros.Types.Samples.{dcrd, outpoint, input}
use dcrros.Types.Ops.{r_type}
use dcrros.Prelude.Keys.{string_comparable}
use dcrros.Types.Metadata.{metadata_uint16}
use dcrros.Types.Text.{after_0x}
use text.Mathlib.Text.{◌==◌ as str_eq}
use dcrros.Types.Transactions.{rosetta_ops_to_tx}
use dcrros.Types.Transactions.Signing.{prev_output_from_debit_op}
use dcrros.Types.Transactions.RoundTrip.{input_op, tx_metadata, tx_ops, rosetta_ops_to_tx-tx_ops}
use dcrros.Construction.Skipped.{construction_payloads_skipped}
use dcrros.Construction.Fees.{suggestion, metadata-preprocess}
use dcrros.Construction.Derive.{
  KeyLib, construction_derive, derive, is_wanted_version, key_address, address_for,
}
use dcrros.Construction.Derived.{IsKeyLib, Derives, rosetta_account_to_pk_script-derive}
use dcrros.Types.Transactions.Samples.{
  lib, lib-IsWireLib, addresses, dsa-IsPayable, sign_lib, signature, copies,
}
use dcrros.Types.Transactions.OutPoints.{out_point_text}
use dcrros.Types.Transactions.Signatures.{sig_script}
use dcrros.Construction.{serialize, deserialize, all_found, write_prev_outs, write_prev_out}
use dcrros.Construction.Written.{is_spent_by}
use dcrros.Construction.Samples.{
  codec_lib, codec_lib-IsCodec, payment, payment-IsCoded, signed_payment, signed_payment-IsCoded,
  unsigned, unsigned-IsSound, prev,
}
use dcrros.Construction.RoundTrip.{deserialize-serialize}
use dcrros.Construction.Combined.{combine-serialize}
use dcrros.Construction.Service.{
  combine, construction_parse, construction_payloads, construction_preprocess,
  construction_metadata, count_unsigned,
}
use dcrros.Construction.Offline.{construction_parse_offline}
use dcrros.Construction.Panics.{claimed, deserialize_panics}

abbrev unsigned_text : String
unsigned_text = hex_encode (
    1 ∷ 0 ∷ 1 ∷ 0 ∷ 0 ∷ 0 ∷ 0 ∷ 0 ∷ 0 ∷ 0 ∷ 30 ∷ 0 ∷ 0 ∷ 0 ∷ 0 ∷ 0 ∷ 0 ∷ 0 ∷ 0 ∷ 0 ∷ 1 ∷ 0 ∷ 0 ∷ 0
    ∷ 0 ∷ 0 ∷ 0 ∷ 0 ∷ 8 ∷ [])

serialize-unsigned : serialize codec_lib unsigned ≡ ok unsigned_text
unfolding serialize all_found lookup write_prev_outs write_prev_out
serialize-unsigned = refl

deserialize-serialize_example :
    (m : Map OutPoint PrevOutput) × ((deserialize codec_lib unsigned_text
        ≡ ok (record { tx = payment; prev_out_points = m }))
      × ((o : OutPoint)
          → lookup o m
            ≡ (if is_spent_by payment.tx_in o then lookup o ((outpoint 2, prev) ∷ []) else none)))
deserialize-serialize_example =
    deserialize-serialize codec_lib codec_lib-IsCodec unsigned unsigned_text unsigned-IsSound
      serialize-unsigned

combine-serialize_example :
    (out : String) × ((m : Map OutPoint PrevOutput) × ((combine lib sign_lib codec_lib
            (signature 4 4 ∷ [])
            unsigned_text
          ≡ ok out)
        × ((deserialize codec_lib out ≡ ok (record { tx = signed_payment; prev_out_points = m }))
            × ((o : OutPoint)
                → lookup o m ≡ (
                    if is_spent_by payment.tx_in o
                    then lookup o ((outpoint 2, prev) ∷ [])
                    else none)))))
unfolding sig_script
combine-serialize_example =
    combine-serialize lib sign_lib codec_lib codec_lib-IsCodec unsigned unsigned_text
      (signature 4 4 ∷ []) ((4 ∷ 1 ∷ 4 ∷ []) ∷ []) (3 ∷ []) unsigned-IsSound (refl, tt)
      serialize-unsigned (refl, tt) refl signed_payment-IsCoded refl

construction_parse_offline_example :
    construction_parse lib sign_lib codec_lib dcrd
      (out_point_text lib)
      (λ h. err (GoError.code err_tx_not_found))
      unsigned_text
    ≡ construction_parse lib sign_lib codec_lib dcrd
        (out_point_text lib)
        (λ h. ok payment)
        unsigned_text
construction_parse_offline_example =
    construction_parse_offline lib sign_lib codec_lib dcrd (out_point_text lib)
      (λ h. err (GoError.code err_tx_not_found)) (λ h. ok payment) unsigned_text

deserialize_panics_example :
    deserialize codec_lib
      (hex_encode (1 ∷ 0 ∷ claimed codec_lib codec_lib-IsCodec 1 30 0 (2 ^ 63) []))
    ≡ panic
deserialize_panics_example =
    deserialize_panics codec_lib codec_lib-IsCodec payment (input 2) [] (0 ∷ []) 30 0 (2 ^ 63) []
      payment-IsCoded refl refl (omega arith) (omega arith) (omega arith) (omega arith)
      (omega arith) tt

-- A debit from the raw account of a script of version 0
abbrev raw_debit : Operation
raw_debit =
    input_op lib
      (record { address = "0x000007"; metadata = some (("script_version", Value.uint16 0) ∷ []) })
      (input 2)

raw_debit_skipped : prev_output_from_debit_op sign_lib raw_debit ≡ ok none
unfolding prev_output_from_debit_op metadata_uint16 lookup after_0x r_type
raw_debit_skipped = refl

construction_payloads_skipped_example :
    construction_payloads lib sign_lib codec_lib [] (raw_debit ∷ [])
    ≢ ok (record { unsigned_transaction = unsigned_text; payloads = [] })
construction_payloads_skipped_example =
    construction_payloads_skipped lib sign_lib codec_lib [] [] [] raw_debit
      (record { unsigned_transaction = unsigned_text; payloads = [] }) refl raw_debit_skipped

abbrev dsb : AccountIdentifier
dsb = record { address = "Dsb"; metadata = some (("script_version", Value.uint16 0) ∷ []) }

payment_ops :
    rosetta_ops_to_tx lib addresses (tx_metadata payment) (tx_ops lib dcrd dsb payment) ≡ ok payment
payment_ops =
    rosetta_ops_to_tx-tx_ops lib lib-IsWireLib dcrd addresses dsb payment
      ((omega arith, (omega arith, (omega arith, tt))), tt)
      ((omega arith, (omega arith, ((omega arith, tt), dsa-IsPayable))), tt)

abbrev int64_of : Value → ℕ
int64_of (Value.whole negative n) = n
int64_of _ = 0

metadata-preprocess_example :
    (construction_preprocess lib sign_lib codec_lib
        (λ tx. 142)
        (tx_metadata payment)
        (tx_ops lib dcrd dsb payment)
      ≡ ok (("serialize_size", Value.int 250) ∷ []))
    × ((construction_metadata int64_of (("serialize_size", Value.int 250) ∷ [])
          ≡ ok (suggestion 2500))
        × (construction_metadata int64_of (("serialize_size", Value.whole false 250) ∷ [])
            ≡ ok (suggestion 2500)))
unfolding count_unsigned
metadata-preprocess_example =
    metadata-preprocess int64_of lib sign_lib codec_lib (λ tx. 142) (tx_metadata payment)
      (tx_ops lib dcrd dsb payment) payment (λ n h. refl) payment_ops (omega arith)

-- Every key has the same address, whose unsigned_text is Dsa.
abbrev key_lib : KeyLib
key_lib = record {
  addresses = record {
    Address = Unit {0};
    decode_address = λ s. if str_eq s "Dsa" then some tt else none;
    payment_script = λ a. 7 ∷ [];
  };
  is_pub_key = λ bs. true;
  hash160 = λ bs. bs;
  schnorr_address = λ h. err (GoError.other "no schnorr");
  ecdsa_address = λ h. ok tt;
  address_text = λ a. "Dsa";
}

key_lib-IsKeyLib : IsKeyLib key_lib
unfolding after_0x
key_lib-IsKeyLib = record { decodes = λ a. refl; plain = λ a. refl }

abbrev key : PublicKey
key = record { bytes = 2 ∷ copies 32 9; curve_type = CurveType.secp256k1 }

abbrev asked : Map String Value
asked = ("script_version", Value.whole false 0) ∷ []

abbrev derived : AccountIdentifier
derived = record { address = "Dsa"; metadata = some asked }

construction_derive-key : construction_derive key_lib asked (some key) ≡ ok derived
unfolding construction_derive derive lookup is_wanted_version key_address address_for
construction_derive-key = refl

rosetta_account_to_pk_script-derive_example :
    Derives key_lib asked key derived (some (Value.whole false 0))
unfolding lookup
rosetta_account_to_pk_script-derive_example =
    rosetta_account_to_pk_script-derive key_lib asked key derived key_lib-IsKeyLib
      construction_derive-key
