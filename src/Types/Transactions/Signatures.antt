-- ===== src/Types/Transactions/Signatures.antt =====
-- types/transactions.go: the signatures of a transaction.
use dcrros.Prelude.{
  ℕ, ◌%◌, ◌^◌, not, Option, none, some, List, [], ◌∷◌, ◌++◌, nat_eq, if◌then◌else◌,
}
use dcrros.Prelude.Lists.{length}
use dcrros.Prelude.Results.{Result, ok, err, panic}
use dcrros.BackendDb.{outpoint_comparable}
use dcrros.Wire.{TxIn, MsgTx}
use dcrros.Types.Errors.{GoError}
use dcrros.Types.Errors.Codes.{
  err_incorrect_sig_count, err_unsupported_curve_type, err_invalid_pub_key, err_incorrect_sig_size,
  err_invalid_sig, err_unsupported_signature_type,
}
use dcrros.Types.Rosetta.{CurveType, SignatureType, PublicKey, SigningPayload, Signature}
use dcrros.Types.Transactions.{coded}
use dcrros.Types.Transactions.Signing.{SignLib}

module _ (lib : SignLib) where
  -- The checks of one signature, in the order of the code, up to its script.
  abbrev pub pushed : Option (List ℕ) → Result GoError (List ℕ)
  pushed none = err (GoError.other "%v")
  pushed (some script) = ok script

  abbrev pub verified :
      Signature → List ℕ → SignLib.Key lib → Option SigningPayload → Result GoError (List ℕ)
  verified sig key_bytes key none = panic
  verified sig key_bytes key (some payload) =
      if not (lib.verify sig.bytes payload.bytes key)
      then err (coded err_invalid_sig "sig at index %d failed verification")
      else pushed (
          lib.push_script ((lib.der sig.bytes ++ (lib.sig_hash_all % 2 ^ 8) ∷ []) ∷ key_bytes ∷ []))

  abbrev pub ecdsa_script :
      Signature → List ℕ → SignLib.Key lib → SignatureType → Result GoError (List ℕ)
  ecdsa_script sig key_bytes key SignatureType.other_signature =
      err (GoError.code err_unsupported_signature_type)
  ecdsa_script sig key_bytes key SignatureType.ecdsa =
      if not (nat_eq (length sig.bytes) 64)
      then err (coded err_incorrect_sig_size "Ecdsa signatures need to be 64 bytes long")
      else verified sig key_bytes key sig.signing_payload

  abbrev pub with_key : Signature → List ℕ → Option (SignLib.Key lib) → Result GoError (List ℕ)
  with_key sig key_bytes none = err (coded err_invalid_pub_key "%v")
  with_key sig key_bytes (some key) = ecdsa_script sig key_bytes key sig.signature_type

  abbrev pub on_curve : Signature → List ℕ → CurveType → Result GoError (List ℕ)
  on_curve sig key_bytes CurveType.other_curve = err (GoError.code err_unsupported_curve_type)
  on_curve sig key_bytes CurveType.secp256k1 = with_key sig key_bytes (lib.parse_pub_key key_bytes)

  abbrev pub keyed : Signature → Option PublicKey → Result GoError (List ℕ)
  keyed sig none = panic
  keyed sig (some key) = on_curve sig key.bytes key.curve_type

  unfoldable pub sig_script : Signature → Result GoError (List ℕ)
  sig_script sig = keyed sig sig.public_key

  -- An input's script is written, or the loop stops: what the later rounds give is `rest`.
  abbrev pub sign_in :
      Result GoError (List ℕ)
      → TxIn
      → List TxIn
      → Result GoError (Unit {0}) × List TxIn
      → Result GoError (Unit {0}) × List TxIn
  sign_in (ok script) in_ ins rest = (rest.0, record in_ { signature_script = script } ∷ rest.1)
  sign_in (err e) in_ ins rest = (err e, in_ ∷ ins)
  sign_in panic in_ ins rest = (panic, in_ ∷ ins)

  -- The scripts of the inputs, written in place: those before an error stay written.
  unfoldable pub sign_ins : List Signature → List TxIn → Result GoError (Unit {0}) × List TxIn
  sign_ins [] ins = (ok tt, ins)
  sign_ins (sig ∷ sigs) [] = (panic, [])
  sign_ins (sig ∷ sigs) (in_ ∷ ins) = sign_in (sig_script sig) in_ ins (sign_ins sigs ins)

  -- `CombineTxSigs`: the transaction that it changes, beside its result.
  unfoldable pub combine_tx_sigs : List Signature → MsgTx → Result GoError (Unit {0}) × MsgTx
  combine_tx_sigs sigs tx =
      let signed = sign_ins sigs tx.tx_in in
      if not (nat_eq (length sigs) (length tx.tx_in))
      then (err (GoError.code err_incorrect_sig_count), tx)
      else (signed.0, record tx { tx_in = signed.1 })
