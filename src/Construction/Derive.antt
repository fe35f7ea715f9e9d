-- ===== src/Construction/Derive.antt =====
-- backend/svc_construction.go: `ConstructionDerive`, the account of a public key.
use dcrros.Prelude.{
  ℕ, String, Bool, true, false, not, ◌||◌, Option, none, some, List, [], ◌∷◌, nat_eq, if◌then◌else◌,
}
use text.Mathlib.Text.{◌==◌ as str_eq}
use dcrros.Prelude.Keys.{string_comparable}
use dcrros.Prelude.Lists.{length}
use dcrros.Prelude.Maps.{Map, lookup}
use dcrros.Prelude.Results.{Result, ok, err, panic}
use dcrros.Prelude.Outcomes.{◌>>=◌}
use dcrros.Types.Errors.{GoError, RosettaError}
use dcrros.Types.Errors.Codes.{
  err_unspecified_address_version, err_unsupported_address_version, err_invalid_secp256k1_pub_key,
  err_not_compressed_secp256k1_key, err_unsupported_address_algo, err_unsupported_curve_type,
}
use dcrros.Types.Rosetta.{Value, AccountIdentifier, CurveType, PublicKey}
use dcrros.Types.Account.{AddressLib}
use dcrros.Construction.{to_response}

-- What Derive calls of dcrd: whether bytes are a public key, the hash of a key, the addresses of a hash
-- at fixed chain parameters, and their texts.
pub record KeyLib : Type 1 where
  pub addresses : AddressLib
  pub is_pub_key : List ℕ → Bool
  pub hash160 : List ℕ → List ℕ
  pub schnorr_address : List ℕ → Result GoError (AddressLib.Address addresses)
  pub ecdsa_address : List ℕ → Result GoError (AddressLib.Address addresses)
  pub address_text : AddressLib.Address addresses → String

-- version == wantVers: zero of the number types, and nil.
unfoldable pub is_wanted_version : Value → Bool
is_wanted_version (Value.uint16 v) = nat_eq v 0
is_wanted_version (Value.whole negative n) = nat_eq n 0
is_wanted_version (Value.int v) = nat_eq v 0
is_wanted_version Value.null = true
is_wanted_version _ = false

abbrev pub first_is_compressed : List ℕ → Bool
first_is_compressed [] = false
first_is_compressed (b ∷ bs) = nat_eq b 2 || nat_eq b 3

module _ (lib : KeyLib) where
  abbrev pub named_address : String → List ℕ → Result GoError (AddressLib.Address lib.addresses)
  named_address algo hash =
      if str_eq algo "schnorr"
      then lib.schnorr_address hash
      else if str_eq algo "ecdsa"
      then lib.ecdsa_address hash
      else err (GoError.code err_unsupported_address_algo)

  -- The switch on the algo; nil is also what a missing key gives.
  unfoldable pub address_for :
      Option Value → List ℕ → Result GoError (AddressLib.Address lib.addresses)
  address_for none hash = lib.ecdsa_address hash
  address_for (some Value.null) hash = lib.ecdsa_address hash
  address_for (some (Value.text algo)) hash = named_address algo hash
  address_for (some _) hash = err (GoError.code err_unsupported_address_algo)

  -- The case of a secp256k1 key
  unfoldable pub key_address :
      Option Value → List ℕ → Result GoError (AddressLib.Address lib.addresses)
  key_address algo bytes =
      if not (nat_eq (length bytes) 33)
      then err (GoError.code err_invalid_secp256k1_pub_key)
      else if not (first_is_compressed bytes)
      then err (GoError.code err_not_compressed_secp256k1_key)
      else if not (lib.is_pub_key bytes)
      then err (GoError.code err_invalid_secp256k1_pub_key)
      else address_for algo (lib.hash160 bytes)

  abbrev pub curve_address :
      Option Value → PublicKey → CurveType → Result GoError (AddressLib.Address lib.addresses)
  curve_address algo key CurveType.secp256k1 = key_address algo key.bytes
  curve_address algo key CurveType.other_curve = err (GoError.code err_unsupported_curve_type)

  -- A nil key panics.
  abbrev pub public_key_address :
      Option Value → Option PublicKey → Result GoError (AddressLib.Address lib.addresses)
  public_key_address algo none = panic
  public_key_address algo (some key) = curve_address algo key key.curve_type

  abbrev pub versioned_account :
      Map String Value → Option PublicKey → Option Value → Result GoError AccountIdentifier
  versioned_account metadata key none = err (GoError.code err_unspecified_address_version)
  versioned_account metadata key (some version) =
      if not (is_wanted_version version)
      then err (GoError.code err_unsupported_address_version)
      else (public_key_address (lookup "algo" metadata) key >>= λ a. ok (record {
        address = lib.address_text a;
        metadata = some (("script_version", version) ∷ []);
      }))

  -- `ConstructionDerive`, before RError.
  unfoldable pub derive : Map String Value → Option PublicKey → Result GoError AccountIdentifier
  derive metadata key = versioned_account metadata key (lookup "script_version" metadata)

  unfoldable pub construction_derive :
      Map String Value → Option PublicKey → Result (Option RosettaError) AccountIdentifier
  construction_derive metadata key = to_response (derive metadata key)
