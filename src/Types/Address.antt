-- ===== src/Types/Address.antt =====
-- types/address.go: the account name of a script.
use Prim.Native.Char.{Char}
use dcrros.Prelude.{ℕ, ◌/◌, ◌%◌, String, List, [], ◌∷◌, nat_eq, if◌then◌else◌}
use dcrros.Wire.{Dcrd}

abbrev pub treasury_account_address : String
treasury_account_address = "*treasury"

-- A digit of hex.Encode.
unfoldable pub hex_digit : ℕ → Char
hex_digit n =
    if nat_eq n 0
    then "0"
    else if nat_eq n 1
    then "1"
    else if nat_eq n 2
    then "2"
    else if nat_eq n 3
    then "3"
    else if nat_eq n 4
    then "4"
    else if nat_eq n 5
    then "5"
    else if nat_eq n 6
    then "6"
    else if nat_eq n 7
    then "7"
    else if nat_eq n 8
    then "8"
    else if nat_eq n 9
    then "9"
    else if nat_eq n 10
    then "a"
    else if nat_eq n 11
    then "b"
    else if nat_eq n 12
    then "c"
    else if nat_eq n 13
    then "d"
    else if nat_eq n 14
    then "e"
    else "f"

-- hex.Encode
unfoldable pub hex_encode : List ℕ → String
unfolding hex_digit
hex_encode [] = String.[]
hex_encode (b ∷ bs) =
    String.◌∷◌ (hex_digit (b / 16)) (String.◌∷◌ (hex_digit (b % 16)) (hex_encode bs))

unfoldable pub pk_script_to_raw_account_addr : ℕ → List ℕ → String
unfolding hex_encode
pk_script_to_raw_account_addr version pk_script =
    String.◌∷◌ "0"
      (String.◌∷◌ "x" (hex_encode ((version / 256 % 256) ∷ (version % 256) ∷ pk_script)))

-- Scripts of a standard type with one address have its text as their name, the others a raw one.
abbrev pub sole_address : String → List String → String
sole_address raw (a ∷ []) = a
sole_address raw _ = raw

unfoldable pub dcr_pk_script_to_account_addr : Dcrd → ℕ → List ℕ → String
unfolding pk_script_to_raw_account_addr
dcr_pk_script_to_account_addr dcrd version pk_script =
    let (standard, addrs) = dcrd.extract_addrs version pk_script in
    let raw = pk_script_to_raw_account_addr version pk_script in
    if standard then sole_address raw addrs else raw
