-- ===== src/Types/Account.antt =====
-- types/address.go: Rosetta accounts and the scripts that they stand for.
pub mod RoundTrip
use dcrros.Prelude.{
  ℕ, ◌-◌, ◌%◌, ◌^◌, String, Bool, true, false, not, ◌||◌, Option, none, some, List, ltb, leb,
  nat_eq, if◌then◌else◌,
}
use dcrros.Prelude.Maps.{Map}
use dcrros.Prelude.Words.{slt}
use dcrros.Prelude.Results.{Result, ok, err}
use dcrros.Prelude.Outcomes.{◌>>=◌, error_to}
use dcrros.Types.Errors.{GoError}
use dcrros.Types.Rosetta.{Value, AccountIdentifier}
use dcrros.Types.Text.{
  byte_length, parse_int, hex_decode, after_0x, has_0x, first_chars, chars_from,
}
use dcrros.Types.Metadata.{metadata_uint16}

-- What dcrd does with addresses: decoding a text at fixed chain parameters, and the payment script of
-- an address.
pub record AddressLib : Type 1 where
  pub Address : Type 0
  pub decode_address : String → Option Address
  pub payment_script : Address → List ℕ

abbrev pub decoded_script : Option (List ℕ) → Result GoError (List ℕ)
decoded_script none = err (GoError.other "encoding/hex: %v")
decoded_script (some script) = ok script

-- rawVersion is an int64 pattern.
abbrev pub raw_script : ℕ → Option ℕ → String → Result GoError (List ℕ)
raw_script version none rest = err (GoError.other "invalid version int: %v")
raw_script version (some raw_version) rest =
    if slt raw_version 0
    then err (GoError.other "invalid version int: %v")
    else if not (nat_eq (raw_version % 2 ^ 16) version)
    then err (GoError.other "incorrect version %d (expected %d)")
    else decoded_script (hex_decode rest)

abbrev pub raw_after : ℕ → Option String → Result GoError (List ℕ)
raw_after version none = err (GoError.other "raw address does not have 0x prefix")
raw_after version (some rest) =
    raw_script version (parse_int 16 16 (first_chars 4 rest)) (chars_from 4 rest)

-- The version has four characters. A character of more bytes fails as its bytes do.
unfoldable pub raw_account_addr_to_pk_script : ℕ → String → Result GoError (List ℕ)
raw_account_addr_to_pk_script version addr =
    if ltb (byte_length addr) 6
    then err (GoError.other "raw address too small")
    else raw_after version (after_0x addr)

abbrev pub err_nil_account_metadata : GoError
err_nil_account_metadata = GoError.other "nil account metadata"

abbrev pub err_cannot_decode_script_version : GoError
err_cannot_decode_script_version = GoError.other "unable to decode script_version"

module _ (lib : AddressLib) where
  abbrev pub address_script : Option (AddressLib.Address lib) → Result GoError (List ℕ)
  address_script none = err (GoError.other "unable to decode address: %v")
  address_script (some a) = ok (lib.payment_script a)

  abbrev pub script_of : ℕ → String → Result GoError (List ℕ)
  script_of version address =
      if not (nat_eq version 0) || has_0x address
      then raw_account_addr_to_pk_script version address
      else address_script (lib.decode_address address)

  abbrev pub versioned_script : String → Map String Value → Result GoError (ℕ × List ℕ)
  versioned_script address metadata = do
    version ←
        error_to (λ _. GoError.wrapped "%w: %v" err_cannot_decode_script_version)
          (metadata_uint16 metadata "script_version")
    script ← script_of version address
    ok (version, script)

  abbrev pub script_with : String → Option (Map String Value) → Result GoError (ℕ × List ℕ)
  script_with address none = err err_nil_account_metadata
  script_with address (some metadata) = versioned_script address metadata

  -- `rosettaAccountToPkScript`
  unfoldable pub rosetta_account_to_pk_script : AccountIdentifier → Result GoError (ℕ × List ℕ)
  rosetta_account_to_pk_script account = script_with account.address account.metadata

  unfoldable pub check_rosetta_account : AccountIdentifier → Result GoError (Unit {0})
  check_rosetta_account account = rosetta_account_to_pk_script account >>= λ r. ok tt
