-- ===== src/Construction/Derived.antt =====
-- backend/svc_construction.go: the account that ConstructionDerive gives, as types/address.go reads it.
use dcrros.Prelude.{
  ℕ, ◌≡◌, arith, refl, sym, ap, String, true, false, Bool, ◌⊎◌, inl, inr, Bool-cases, Option, none,
  some, List, [], ◌∷◌, nat_eq, nat_eq→eq,
}
use mathlib.Core.Path.{subst}
use text.Mathlib.Text.{◌==◌ as str_eq}
use dcrros.Prelude.Keys.{string_comparable}
use dcrros.Prelude.Lists.{length}
use dcrros.Prelude.Maps.{Map, lookup}
use dcrros.Prelude.Results.{ok, err}
use dcrros.Prelude.Outcomes.{ok-bind, ok-injective, error_to-ok}
use dcrros.Types.Errors.{GoError, r_error}
use dcrros.Types.Errors.Codes.{err_unsupported_address_version}
use dcrros.Types.Rosetta.{Value, AccountIdentifier, CurveType, PublicKey}
use dcrros.Types.Metadata.{MetaError, metadata_uint16, value_as, as_uint16}
use dcrros.Types.Text.{has_0x}
use dcrros.Types.Account.{AddressLib, rosetta_account_to_pk_script}
use dcrros.Construction.Derive.{
  KeyLib, first_is_compressed, named_address, address_for, key_address, is_wanted_version,
  versioned_account, public_key_address, curve_address, derive, construction_derive,
}
use dcrros.Construction.RoundTrip.{passed}

-- What dcrd's addresses promise: the text of one is not raw, and decodes to it.
pub record IsKeyLib (lib : KeyLib) : Type 0 where
  pub decodes :
      (a : AddressLib.Address lib.addresses)
      → lib.addresses.decode_address (lib.address_text a) ≡ some a
  pub plain : (a : AddressLib.Address lib.addresses) → has_0x (lib.address_text a) ≡ false

-- A key of 33 bytes, the first of them 2 or 3, that are a public key.
pub record IsCompressed (lib : KeyLib) (bytes : List ℕ) : Type 0 where
  pub size : length bytes ≡ 33
  pub rest : List ℕ
  pub first : (bytes ≡ 2 ∷ rest) ⊎ (bytes ≡ 3 ∷ rest)
  pub valid : lib.is_pub_key bytes ≡ true

-- The address of a hash for the algo of a request: "ecdsa" is also what a missing or null one means.
pub data IsAddressFor (lib : KeyLib) (hash : List ℕ) (a : AddressLib.Address lib.addresses)
    : Option Value → Type 0 where
  missing : lib.ecdsa_address hash ≡ ok a → IsAddressFor lib hash a none
  null_algo : lib.ecdsa_address hash ≡ ok a → IsAddressFor lib hash a (some Value.null)
  ecdsa : lib.ecdsa_address hash ≡ ok a → IsAddressFor lib hash a (some (Value.text "ecdsa"))
  schnorr : lib.schnorr_address hash ≡ ok a → IsAddressFor lib hash a (some (Value.text "schnorr"))

-- The zeros of the types that a version may have; those that an account's version is read from,
-- and those that it is not.
pub data IsReadZero : Value → Type 0 where
  uint16_zero : (v : ℕ) → v ≡ 0 → IsReadZero (Value.uint16 v)
  whole_zero : (negative : Bool) (n : ℕ) → n ≡ 0 → IsReadZero (Value.whole negative n)

pub data IsOtherZero : Value → Type 0 where
  int_zero : (v : ℕ) → v ≡ 0 → IsOtherZero (Value.int v)
  no_value : IsOtherZero Value.null

is_wanted_version-IsZero : (v : Value) → is_wanted_version v ≡ true → IsReadZero v ⊎ IsOtherZero v
unfolding is_wanted_version
is_wanted_version-IsZero (Value.uint16 v) h = inl (uint16_zero v (nat_eq→eq v 0 h))
is_wanted_version-IsZero (Value.whole negative n) h = inl (whole_zero negative n (nat_eq→eq n 0 h))
is_wanted_version-IsZero (Value.int v) h = inr (int_zero v (nat_eq→eq v 0 h))
is_wanted_version-IsZero Value.null h = inr no_value
is_wanted_version-IsZero (Value.int8 _) h = absurd cc
is_wanted_version-IsZero (Value.uint32 _) h = absurd cc
is_wanted_version-IsZero (Value.text _) h = absurd cc
is_wanted_version-IsZero (Value.bytes _) h = absurd cc
is_wanted_version-IsZero Value.fraction h = absurd cc
is_wanted_version-IsZero Value.other h = absurd cc

IsReadZero-as_uint16 :
    (v : Value) → IsReadZero v → value_as as_uint16 "script_version" (some v) ≡ ok 0
IsReadZero-as_uint16 _ (uint16_zero v e) = rw e refl
IsReadZero-as_uint16 _ (whole_zero true n e) = rw e refl
IsReadZero-as_uint16 _ (whole_zero false n e) = rw e refl

IsOtherZero-as_uint16 :
    (v : Value)
    → IsOtherZero v
    → value_as as_uint16 "script_version" (some v)
      ≡ err (MetaError.bad_value "unconvertable type %T to uint16")
IsOtherZero-as_uint16 _ (int_zero v e) = refl
IsOtherZero-as_uint16 _ no_value = refl

first_is_compressed-cases :
    (bytes : List ℕ)
    → first_is_compressed bytes ≡ true
    → (rest : List ℕ) × ((bytes ≡ 2 ∷ rest) ⊎ (bytes ≡ 3 ∷ rest))
first_is_compressed-cases [] h = absurd cc
first_is_compressed-cases (b ∷ bs) h = (bs, ground arith)

module _ (lib : KeyLib) where
  key_address-ok :
      (algo : Option Value) (bytes : List ℕ) (a : AddressLib.Address lib.addresses)
      → key_address lib algo bytes ≡ ok a
      → IsCompressed lib bytes × (address_for lib algo (lib.hash160 bytes) ≡ ok a)
  unfolding key_address
  key_address-ok algo bytes a h =
      let (sized, h1) = passed _ (nat_eq (length bytes) 33) _ a h in
      let (first, h2) = passed _ (first_is_compressed bytes) _ a h1 in
      let (valid, h3) = passed _ (lib.is_pub_key bytes) _ a h2 in
      let (rest, two_or_three) = first_is_compressed-cases bytes first in
      (
        record {
          size = nat_eq→eq (length bytes) 33 sized;
          rest = rest;
          first = two_or_three;
          valid = valid;
        },
        h3,
      )

  named_address-IsAddressFor :
      (algo : String) (hash : List ℕ) (a : AddressLib.Address lib.addresses)
      → named_address lib algo hash ≡ ok a
      → IsAddressFor lib hash a (some (Value.text algo))
  named_address-IsAddressFor algo hash a h = elim (Bool-cases (str_eq algo "schnorr")) [
    | inl s ↦
        subst (λ (t : String). IsAddressFor lib hash a (some (Value.text t)))
          (sym ((string_comparable.equal_iff algo "schnorr").0 s)) (schnorr (rw s at h))
    | inr n ↦ elim (Bool-cases (str_eq algo "ecdsa")) [
      | inl s ↦
          subst (λ (t : String). IsAddressFor lib hash a (some (Value.text t)))
            (sym ((string_comparable.equal_iff algo "ecdsa").0 s)) (ecdsa (rw (n, s) at h))
      | inr m ↦ absurd (ground arith)
    ]
  ]

  address_for-IsAddressFor :
      (algo : Option Value) (hash : List ℕ) (a : AddressLib.Address lib.addresses)
      → address_for lib algo hash ≡ ok a
      → IsAddressFor lib hash a algo
  unfolding address_for
  address_for-IsAddressFor none hash a h = missing h
  address_for-IsAddressFor (some Value.null) hash a h = null_algo h
  address_for-IsAddressFor (some (Value.text algo)) hash a h =
      named_address-IsAddressFor algo hash a h
  address_for-IsAddressFor (some (Value.int8 _)) hash a h = absurd cc
  address_for-IsAddressFor (some (Value.uint16 _)) hash a h = absurd cc
  address_for-IsAddressFor (some (Value.uint32 _)) hash a h = absurd cc
  address_for-IsAddressFor (some (Value.int _)) hash a h = absurd cc
  address_for-IsAddressFor (some (Value.bytes _)) hash a h = absurd cc
  address_for-IsAddressFor (some (Value.whole _ _)) hash a h = absurd cc
  address_for-IsAddressFor (some Value.fraction) hash a h = absurd cc
  address_for-IsAddressFor (some Value.other) hash a h = absurd cc

  curve_address-ok :
      (algo : Option Value) (key : PublicKey) (curve : CurveType)
      (a : AddressLib.Address lib.addresses)
      → curve_address lib algo key curve ≡ ok a
      → IsCompressed lib key.bytes × (address_for lib algo (lib.hash160 key.bytes) ≡ ok a)
  curve_address-ok algo key CurveType.secp256k1 a h = key_address-ok algo key.bytes a h
  curve_address-ok algo key CurveType.other_curve a h = absurd cc

  abbrev account_at : Value → AddressLib.Address lib.addresses → AccountIdentifier
  account_at v a = record {
    address = lib.address_text a;
    metadata = some (("script_version", v) ∷ []);
  }

  rosetta_account_to_pk_script-account_at :
      (v : Value) (a : AddressLib.Address lib.addresses)
      → IsKeyLib lib
      → value_as as_uint16 "script_version" (some v) ≡ ok 0
      → rosetta_account_to_pk_script lib.addresses (account_at v a)
        ≡ ok (0, lib.addresses.payment_script a)
  unfolding rosetta_account_to_pk_script metadata_uint16 lookup
  rosetta_account_to_pk_script-account_at v a laws zero =
      rw (zero, laws.plain a, laws.decodes a) refl

  rosetta_account_to_pk_script-unread :
      (v : Value) (a : AddressLib.Address lib.addresses)
      → IsOtherZero v
      → (e : GoError) × (rosetta_account_to_pk_script lib.addresses (account_at v a) ≡ err e)
  unfolding rosetta_account_to_pk_script metadata_uint16 lookup
  rosetta_account_to_pk_script-unread v a zero = (
    GoError.wrapped "%w: %v" (GoError.other "unable to decode script_version"),
    rw (IsOtherZero-as_uint16 v zero) refl,
  )

  -- Whether the account is read back is a matter of its version's type.
  abbrev pub ReadsBack : Value → AccountIdentifier → AddressLib.Address lib.addresses → Type 0
  ReadsBack v account a =
      (IsReadZero v
        × (rosetta_account_to_pk_script lib.addresses account
            ≡ ok (0, lib.addresses.payment_script a)))
      ⊎ (IsOtherZero v
          × ((e : GoError) × (rosetta_account_to_pk_script lib.addresses account ≡ err e)))

  account_at-ReadsBack :
      (v : Value) (a : AddressLib.Address lib.addresses)
      → IsKeyLib lib
      → IsReadZero v ⊎ IsOtherZero v
      → ReadsBack v (account_at v a) a
  account_at-ReadsBack v a laws (inl z) =
      inl (z, rosetta_account_to_pk_script-account_at v a laws (IsReadZero-as_uint16 v z))
  account_at-ReadsBack v a laws (inr z) = inr (z, rosetta_account_to_pk_script-unread v a z)

  -- What Derive promises of the account that it returns.
  abbrev pub Derives : Map String Value → PublicKey → AccountIdentifier → Option Value → Type 0
  Derives metadata key account version =
      (v : Value) × (a : AddressLib.Address lib.addresses) × ((version ≡ some v)
        × IsCompressed lib key.bytes
        × IsAddressFor lib (lib.hash160 key.bytes) a (lookup "algo" metadata)
        × (account.address ≡ lib.address_text a)
        × ReadsBack v account a)

  -- By the version in the request
  versioned :
      (metadata : Map String Value) (v : Option Value) (key : PublicKey)
      (account : AccountIdentifier)
      → IsKeyLib lib
      → versioned_account lib metadata (some key) v ≡ ok account
      → Derives metadata key account v
  versioned metadata none key account laws h = absurd cc
  versioned metadata (some v) key account laws h =
      let algo = lookup "algo" metadata in
      let (zero, wanted) =
        passed (GoError.code err_unsupported_address_version) (is_wanted_version v) _ account h in
      let (a, (found, made)) = ok-bind (public_key_address lib algo (some key)) _ account wanted in
      let (compressed, named) = curve_address-ok algo key key.curve_type a found in
      let same = ok-injective _ (account_at v a) account refl made in
      let read =
        subst (λ (c : AccountIdentifier). ReadsBack v c a) same
          (account_at-ReadsBack v a laws (is_wanted_version-IsZero v zero)) in
      let address = ap (λ (c : AccountIdentifier). c.address) (sym same) in
      let is_for = address_for-IsAddressFor algo (lib.hash160 key.bytes) a named in
      (v, a, (refl, compressed, is_for, address, read))

  -- Where ConstructionDerive returns an account, the version in the request is a zero or null, the
  -- key has 33 bytes and begins with 2 or 3, and the account is that of the address of the key's
  -- hash: the Schnorr address for "schnorr", and the ECDSA one for "ecdsa", null and no algo. The
  -- account is read back as the payment script of that address if the version is a uint16 or a
  -- float64, and is not read if it is an int or null. dcrd decodes the texts of addresses, and none
  -- of them looks raw.
  pub rosetta_account_to_pk_script-derive :
      (metadata : Map String Value) (key : PublicKey) (account : AccountIdentifier)
      → IsKeyLib lib
      → construction_derive lib metadata (some key) ≡ ok account
      → Derives metadata key account (lookup "script_version" metadata)
  unfolding construction_derive derive
  rosetta_account_to_pk_script-derive metadata key account laws h =
      let derived = error_to-ok r_error (derive lib metadata (some key)) account h in
      versioned metadata (lookup "script_version" metadata) key account laws derived
