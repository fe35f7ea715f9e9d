-- ===== src/Types/Transactions/Samples.antt =====
-- A small version of the packages of dcrd that types/transactions.go calls.
use Prim.Native.Char.{code}
use dcrros.Prelude.{
  ℕ, zero, suc, ◌-◌, ◌*◌, ◌/◌, ◌%◌, ◌^◌, ◌<◌, ◌≡◌, refl, ap, ◌∙◌, String, Bool, true, false, Option,
  none, some, List, [], ◌∷◌, ◌++◌, ltb, nat_eq, arith,
}
use mathlib.Core.Path.{subst}
use text.Mathlib.Text.{◌==◌ as str_eq}
use dcrros.Prelude.Lists.{All}
use dcrros.Types.Samples.{dcrd}
use dcrros.Types.Rosetta.{CurveType, SignatureType, Signature}
use dcrros.Types.Transactions.Signing.{SignLib}
use dcrros.Types.Address.{hex_digit, hex_encode}
use dcrros.Types.Text.{byte_length, char_bytes, hex_decode, after_0x, has_0x}
use dcrros.Types.Text.Digits.{hex_digit_plain, all_below_lem, HasNoColon}
use dcrros.Types.Account.{AddressLib}
use dcrros.Prelude.Bytes.{IsByte, low_bytes, number_of, number_of-low_bytes, low_bytes-IsByte}
use dcrros.Types.Account.RoundTrip.{IsPayable, hex_decode-hex_encode}
use dcrros.Types.Transactions.{WireLib}
use dcrros.Types.Transactions.OutPoints.{IsHashText}
use dcrros.Types.Transactions.RoundTrip.{IsWireLib}

hex_digit_one : (n : ℕ) → n < 16 → char_bytes (code (hex_digit n)) ≡ 1
unfolding hex_digit
hex_digit_one n h =
    let e = all_below_lem 16 n (λ n. ltb (code (hex_digit n)) 128) refl h in ground arith

hex_encode-HasNoColon : (bs : List ℕ) → All IsByte bs → HasNoColon (hex_encode bs)
unfolding hex_encode
hex_encode-HasNoColon [] h = tt
hex_encode-HasNoColon (b ∷ bs) (h, hs) = (
  hex_digit_plain (b / 16) (omega arith),
  (hex_digit_plain (b % 16) (omega arith), hex_encode-HasNoColon bs hs),
)

byte_length-hex_encode : (k n : ℕ) → byte_length (hex_encode (low_bytes k n)) ≡ 2 * k
unfolding hex_encode
byte_length-hex_encode zero n = refl
byte_length-hex_encode (suc k) n =
    rw
      (
        hex_digit_one (n % 256 / 16) (omega arith),
        hex_digit_one (n % 256 % 16) (omega arith),
        byte_length-hex_encode k (n / 256),
      )
      (omega arith)

abbrev pub read_number : Option (List ℕ) → Option ℕ
read_number none = none
read_number (some bs) = some (number_of bs)

abbrev pub lib : WireLib
lib = record {
  new_msg_tx = record { version = 1; tx_in = []; tx_out = []; lock_time = 0; expiry = 0 };
  new_tx_in = λ o x. record {
    previous_out_point = o;
    sequence = 2 ^ 32 - 1;
    value_in = x;
    block_height = 0;
    block_index = 2 ^ 32 - 1;
    signature_script = [];
  };
  hash_text = λ h. hex_encode (low_bytes 32 h);
  decode_hash = λ s. read_number (hex_decode s);
}

pub lib-IsHashText : IsHashText lib
lib-IsHashText = record {
  plain = λ h lt. hex_encode-HasNoColon (low_bytes 32 h) (low_bytes-IsByte 32 h);
  sized = λ h lt. byte_length-hex_encode 32 h;
  decodes = λ h lt.
      ap read_number (hex_decode-hex_encode (low_bytes 32 h) (low_bytes-IsByte 32 h))
      ∙ ap some (number_of-low_bytes 32 h lt);
}

pub lib-IsWireLib : IsWireLib lib
lib-IsWireLib = record {
  hashes = lib-IsHashText;
  out_point = λ o x. refl;
  value_in = λ o x. refl;
  no_ins = refl;
  no_outs = refl;
}

-- Addresses by the one byte of their script: Dsa is 7.
abbrev pub address_of : Bool → Option ℕ
address_of true = some 7
address_of false = none

abbrev pub addresses : AddressLib
addresses = record {
  Address = ℕ;
  decode_address = λ s. address_of (str_eq s "Dsa");
  payment_script = λ a. a ∷ [];
}

abbrev first_of : List String → String
first_of [] = ""
first_of (t ∷ ts) = t

pub dsa-IsPayable : IsPayable dcrd addresses 0 (7 ∷ [])
unfolding after_0x
dsa-IsPayable = record {
  standard = λ t e.
      let same : "Dsa" ≡ t = ap (λ r. first_of r.1) e in
      subst
        (λ (t : String).
          (◌≡◌ {A = ℕ} 0 0)
          × ((has_0x t ≡ false)
              × ((a : ℕ) × ((address_of (str_eq t "Dsa") ≡ some a) × ((a ∷ []) ≡ (7 ∷ []))))))
        same (refl, (refl, (7, (refl, refl))));
}

-- Keys of one byte; a signature holds if its first byte is that of the key.
abbrev pub first_byte : List ℕ → ℕ
first_byte [] = 0
first_byte (b ∷ bs) = b

abbrev pub joined : List (List ℕ) → List ℕ
joined [] = []
joined (bs ∷ rest) = bs ++ joined rest

abbrev pub sign_lib : SignLib
sign_lib = record {
  addresses = addresses;
  is_p2pkh = λ a. true;
  calc_signature_hash = λ script tx idx. some (idx ∷ []);
  Key = ℕ;
  parse_pub_key = λ bs. some (first_byte bs);
  verify = λ sig hash key. nat_eq (first_byte sig) key;
  der = λ sig. first_byte sig ∷ [];
  push_script = λ parts. some (joined parts);
  sig_hash_all = 1;
}

abbrev pub copies : ℕ → ℕ → List ℕ
copies zero b = []
copies (suc n) b = b ∷ copies n b

-- A signature by a key, of some byte.
abbrev pub signature : ℕ → ℕ → Signature
signature key b = record {
  signing_payload =
      some (record { account = none; bytes = []; signature_type = SignatureType.ecdsa });
  public_key = some (record { bytes = key ∷ []; curve_type = CurveType.secp256k1 });
  signature_type = SignatureType.ecdsa;
  bytes = copies 64 b;
}
