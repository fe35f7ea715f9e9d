-- ===== src/Types/Account/RoundTrip.antt =====
-- types/address.go: raw addresses read back.
use Prim.Native.Char.{Char, code}
use dcrros.Prelude.{
  ℕ, ◌+◌, ◌/◌, ◌%◌, ◌^◌, ◌<◌, ◌≤◌, ◌≡◌, refl, ap, ◌∙◌, inl, inr, String, Bool, true, false, ◌||◌,
  none, some, List, [], ◌∷◌, ltb, nat_eq, Bool-cases, if◌then◌else◌, arith,
}
use dcrros.Prelude.Lists.{All}
use dcrros.Prelude.Bytes.{IsByte}
use dcrros.Prelude.Results.{ok, err}
use dcrros.Wire.{Dcrd}
use dcrros.Types.Errors.{GoError}
use dcrros.Types.Address.{
  sole_address, hex_digit, hex_encode, dcr_pk_script_to_account_addr, pk_script_to_raw_account_addr,
}
use dcrros.Prelude.Maps.{lookup}
use dcrros.Types.Rosetta.{Value, AccountIdentifier}
use dcrros.Types.Metadata.{metadata_uint16}
use dcrros.Types.Text.{
  byte_length, char_bytes, read_digits, parse_uint, parse_int, hex_byte, hex_decode, after_0x,
  has_0x,
}
use dcrros.Types.Text.Digits.{
  digit_value-hex_digit, hex_digit_unsigned, read_digits_cons, read_digits_nil,
}
use dcrros.Types.Account.{
  AddressLib, rosetta_account_to_pk_script, script_of, raw_account_addr_to_pk_script,
}

-- Bytes are read back from their hex digits.
pub hex_decode-hex_encode : (bs : List ℕ) → All IsByte bs → hex_decode (hex_encode bs) ≡ some bs
unfolding hex_decode hex_encode hex_byte
hex_decode-hex_encode [] h = refl
hex_decode-hex_encode (b ∷ bs) (lt, rest) =
    rw
      (
        digit_value-hex_digit (b / 16) (omega arith),
        digit_value-hex_digit (b % 16) (omega arith),
        hex_decode-hex_encode bs rest,
      )
      (ap (λ n. some (n ∷ bs)) (omega arith))

abbrev hex4 : ℕ → ℕ → String → String
hex4 a b s = String.◌∷◌ (hex_digit (a / 16)) (
    String.◌∷◌ (hex_digit (a % 16))
      (String.◌∷◌ (hex_digit (b / 16)) (String.◌∷◌ (hex_digit (b % 16)) s)))

-- The version as its four digits
read_digits-version :
    (v : ℕ) → v < 2 ^ 16 → read_digits 16 0 (hex4 (v / 256 % 256) (v % 256) String.[]) ≡ some v
read_digits-version v h =
    let d = λ (n m : ℕ) (lt : n < 16) (s : String).
      read_digits_cons 16 m n (hex_digit n) s (digit_value-hex_digit n lt) in
    d (v / 256 % 256 / 16) 0 (omega arith) _
    ∙ d (v / 256 % 256 % 16) _ (omega arith) _
    ∙ d (v % 256 / 16) _ (omega arith) _
    ∙ d (v % 256 % 16) _ (omega arith) _
    ∙ read_digits_nil 16 _
    ∙ ap some (omega arith)

parse_int_version :
    (c : Char) (s : String) (v : ℕ)
    → (nat_eq (code c) 45 || nat_eq (code c) 43) ≡ false
    → v < 2 ^ 16
    → read_digits 16 0 (String.◌∷◌ c s) ≡ some v
    → parse_int 16 16 (String.◌∷◌ c s) ≡ (if ltb v (2 ^ 15) then some v else none)
unfolding parse_int parse_uint
parse_int_version c s v plain h e = rw e (ground arith)

char_bytes_positive : (c : ℕ) → 1 ≤ char_bytes c
char_bytes_positive c = ground arith

six_ones :
    (a b c d e f n : ℕ)
    → 1 ≤ a
    → 1 ≤ b
    → 1 ≤ c
    → 1 ≤ d
    → 1 ≤ e
    → 1 ≤ f
    → ltb (a + (b + (c + (d + (e + (f + n)))))) 6 ≡ false
six_ones a b c d e f n h1 h2 h3 h4 h5 h6 = ground arith

byte_length_six :
    (a b c d e f : Char) (s : String)
    → ltb
        (byte_length (
          String.◌∷◌ a
            (String.◌∷◌ b (String.◌∷◌ c (String.◌∷◌ d (String.◌∷◌ e (String.◌∷◌ f s)))))))
        6
      ≡ false
byte_length_six a b c d e f s =
    let p = λ (c : Char). char_bytes_positive (code c) in
    six_ones (char_bytes (code a)) (char_bytes (code b)) (char_bytes (code c)) (char_bytes (code d))
      (char_bytes (code e)) (char_bytes (code f)) (byte_length s) (p a) (p b) (p c) (p d) (p e)
      (p f)

-- A raw address is read back as its script, if its version is an int16 that is not negative; the
-- address of a larger version is not read.
pub raw_account_addr_to_pk_script-pk_script_to_raw_account_addr :
    (version : ℕ) (pk_script : List ℕ)
    → version < 2 ^ 16
    → All IsByte pk_script
    → raw_account_addr_to_pk_script version (pk_script_to_raw_account_addr version pk_script) ≡ (
        if ltb version (2 ^ 15)
        then ok pk_script
        else err (GoError.other "invalid version int: %v"))
unfolding raw_account_addr_to_pk_script pk_script_to_raw_account_addr hex_encode after_0x
raw_account_addr_to_pk_script-pk_script_to_raw_account_addr version pk_script h bytes =
    rw
      (
        byte_length_six "0" "x" (hex_digit (version / 256 % 256 / 16))
            (hex_digit (version / 256 % 256 % 16)) (hex_digit (version % 256 / 16))
            (hex_digit (version % 256 % 16)) (hex_encode pk_script),
        parse_int_version (hex_digit (version / 256 % 256 / 16))
            (String.◌∷◌ (hex_digit (version / 256 % 256 % 16)) (
              String.◌∷◌ (hex_digit (version % 256 / 16))
                (String.◌∷◌ (hex_digit (version % 256 % 16)) String.[])))
            version (hex_digit_unsigned (version / 256 % 256 / 16) (omega arith)) h
            (read_digits-version version h),
      )
      (elim (Bool-cases (ltb version (2 ^ 15))) [
        | inl e ↦ rw (e, hex_decode-hex_encode pk_script bytes) (ground arith)
        | inr e ↦ rw e refl
      ])

after_0x-raw :
    (version : ℕ) (pk_script : List ℕ)
    → has_0x (pk_script_to_raw_account_addr version pk_script) ≡ true
unfolding pk_script_to_raw_account_addr after_0x
after_0x-raw version pk_script = refl

-- What dcrd gives for a script that has one standard address: the script is of version 0, and its
-- address is read back as that script.
pub record IsPayable (dcrd : Dcrd) (lib : AddressLib) (version : ℕ) (pk_script : List ℕ)
    : Type 0 where
  pub standard :
      (t : String)
      → dcrd.extract_addrs version pk_script ≡ (true, t ∷ [])
      → (version ≡ 0)
        × ((has_0x t ≡ false)
            × ((a : AddressLib.Address lib) × ((lib.decode_address t ≡ some a)
                  × (lib.payment_script a ≡ pk_script))))

abbrev pub account_of : Dcrd → ℕ → List ℕ → AccountIdentifier
account_of dcrd version pk_script = record {
  address = dcr_pk_script_to_account_addr dcrd version pk_script;
  metadata = some (("script_version", Value.uint16 version) ∷ []);
}

module _ (dcrd : Dcrd) (lib : AddressLib) where
  script_of-raw :
      (version : ℕ) (pk_script : List ℕ)
      → version < 2 ^ 15
      → All IsByte pk_script
      → script_of lib version (pk_script_to_raw_account_addr version pk_script) ≡ ok pk_script
  script_of-raw version pk_script h bytes = ground (
    arith,
    after_0x-raw version pk_script,
    raw_account_addr_to_pk_script-pk_script_to_raw_account_addr version pk_script (omega arith)
        bytes,
  )

  -- By what dcrd extracts of the script
  script_of-named :
      (version : ℕ) (pk_script : List ℕ) (standard : Bool) (addrs : List String)
      → dcrd.extract_addrs version pk_script ≡ (standard, addrs)
      → IsPayable dcrd lib version pk_script
      → version < 2 ^ 15
      → All IsByte pk_script
      → script_of lib version (
          if standard
          then sole_address (pk_script_to_raw_account_addr version pk_script) addrs
          else pk_script_to_raw_account_addr version pk_script)
        ≡ ok pk_script
  script_of-named version pk_script false addrs e payable h bytes =
      script_of-raw version pk_script h bytes
  script_of-named version pk_script true [] e payable h bytes =
      script_of-raw version pk_script h bytes
  script_of-named version pk_script true (t ∷ []) e payable h bytes =
      let (zero_version, (plain, (a, (decoded, paid)))) = payable.standard t e in
      rw (zero_version, plain, decoded, paid) refl
  script_of-named version pk_script true (t ∷ u ∷ addrs) e payable h bytes =
      script_of-raw version pk_script h bytes

  -- The account of a script stands for that script.
  pub script_of-dcr_pk_script_to_account_addr :
      (version : ℕ) (pk_script : List ℕ)
      → IsPayable dcrd lib version pk_script
      → version < 2 ^ 15
      → All IsByte pk_script
      → script_of lib version (dcr_pk_script_to_account_addr dcrd version pk_script) ≡ ok pk_script
  unfolding dcr_pk_script_to_account_addr
  script_of-dcr_pk_script_to_account_addr version pk_script payable h bytes =
      script_of-named version pk_script (dcrd.extract_addrs version pk_script).0
        (dcrd.extract_addrs version pk_script).1 refl payable h bytes

  -- A Rosetta account made for a script, as in ROp, is read back as its version and script.
  pub rosetta_account_to_pk_script-account_of :
      (version : ℕ) (pk_script : List ℕ)
      → IsPayable dcrd lib version pk_script
      → version < 2 ^ 15
      → All IsByte pk_script
      → rosetta_account_to_pk_script lib (account_of dcrd version pk_script)
        ≡ ok (version, pk_script)
  unfolding rosetta_account_to_pk_script metadata_uint16 lookup
  rosetta_account_to_pk_script-account_of version pk_script payable h bytes =
      rw (script_of-dcr_pk_script_to_account_addr version pk_script payable h bytes) refl
