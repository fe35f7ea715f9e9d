-- ===== src/Types/Text.antt =====
-- What the program calls of Go's packages strconv, strings and encoding/hex, on texts as sequences of
-- characters.
pub mod Digits
use Prim.Native.Char.{Char, code}
use dcrros.Prelude.{
  ℕ, zero, suc, ◌+◌, ◌-◌, ◌*◌, ◌/◌, ◌%◌, ◌^◌, String, Bool, true, false, ◌&&◌, ◌||◌, Option, none,
  some, List, [], ◌∷◌, ltb, leb, nat_eq, if◌then◌else◌,
}
use dcrros.Prelude.Words.{neg64}

-- The bytes of a text in UTF-8.
abbrev pub char_bytes : ℕ → ℕ
char_bytes c = if ltb c 128 then 1 else if ltb c 2048 then 2 else if ltb c 65536 then 3 else 4

abbrev pub byte_length : String → ℕ
byte_length String.[] = 0
byte_length (String.◌∷◌ c s) = char_bytes (code c) + byte_length s

-- The value of a digit of strconv, and whether it is one of the base.
unfoldable pub digit_value : ℕ → ℕ → Option ℕ
digit_value base c =
    let d =
      if leb 48 c && leb c 57
      then c - 48
      else if leb 97 c && leb c 122
      then c - 87
      else if leb 65 c && leb c 90
      then c - 55
      else 36 in
    if ltb d base then some d else none

unfoldable pub read_digits : ℕ → ℕ → String → Option ℕ
unfolding digit_value
read_digits base n String.[] = some n
read_digits base n (String.◌∷◌ c s) = elim (digit_value base (code c)) [
  | none ↦ none
  | some d ↦ read_digits base (n * base + d) s
]

abbrev pub at_most : ℕ → Option ℕ → Option ℕ
at_most limit none = none
at_most limit (some n) = if leb n limit then some n else none

-- strconv.ParseUint: a base from 2 to 36 and a size in bits up to 64.
unfoldable pub parse_uint : ℕ → ℕ → String → Option ℕ
parse_uint base bits String.[] = none
parse_uint base bits (String.◌∷◌ c s) = at_most (2 ^ bits - 1) (read_digits base 0 (String.◌∷◌ c s))

-- The number as an int64 pattern, if it fits the size.
abbrev pub signed : ℕ → Bool → Option ℕ → Option ℕ
signed bits negative none = none
signed bits true (some n) = if leb n (2 ^ (bits - 1)) then some (neg64 n) else none
signed bits false (some n) = if ltb n (2 ^ (bits - 1)) then some n else none

-- strconv.ParseInt: one sign, "+" or "-", may come first.
unfoldable pub parse_int : ℕ → ℕ → String → Option ℕ
parse_int base bits String.[] = none
parse_int base bits (String.◌∷◌ c s) =
    let plain = signed bits false (parse_uint base 64 (String.◌∷◌ c s)) in
    if nat_eq (code c) 45
    then signed bits true (parse_uint base 64 s)
    else if nat_eq (code c) 43
    then signed bits false (parse_uint base 64 s)
    else plain

-- hex.DecodeString
unfoldable pub hex_byte : Option ℕ → Option ℕ → Option (List ℕ) → Option (List ℕ)
hex_byte (some a) (some b) (some bs) = some ((a * 16 + b) ∷ bs)
hex_byte _ _ _ = none

unfoldable pub hex_decode : String → Option (List ℕ)
hex_decode String.[] = some []
hex_decode (String.◌∷◌ c String.[]) = none
hex_decode (String.◌∷◌ c (String.◌∷◌ d s)) =
    hex_byte (digit_value 16 (code c)) (digit_value 16 (code d)) (hex_decode s)

-- What follows "0x", if the text begins with that.
unfoldable pub after_0x : String → Option String
after_0x String.[] = none
after_0x (String.◌∷◌ c String.[]) = none
after_0x (String.◌∷◌ c (String.◌∷◌ d s)) =
    if nat_eq (code c) 48 && nat_eq (code d) 120 then some s else none

-- strings.HasPrefix(s, "0x")
abbrev pub has_0x : String → Bool
has_0x s = elim (after_0x s) [ none ↦ false | some t ↦ true ]

abbrev pub first_chars : ℕ → String → String
first_chars zero s = String.[]
first_chars (suc n) String.[] = String.[]
first_chars (suc n) (String.◌∷◌ c s) = String.◌∷◌ c (first_chars n s)

abbrev pub chars_from : ℕ → String → String
chars_from zero s = s
chars_from (suc n) String.[] = String.[]
chars_from (suc n) (String.◌∷◌ c s) = chars_from n s

abbrev pub before_all : Char → List String → List String
before_all c [] = String.◌∷◌ c String.[] ∷ []
before_all c (s ∷ ss) = String.◌∷◌ c s ∷ ss

-- strings.Split(s, ":")
unfoldable pub split_colon : String → List String
split_colon String.[] = String.[] ∷ []
split_colon (String.◌∷◌ c s) =
    let rest = split_colon s in if nat_eq (code c) 58 then String.[] ∷ rest else before_all c rest

abbrev pub append : String → String → String
append String.[] t = t
append (String.◌∷◌ c s) t = String.◌∷◌ c (append s t)

-- strings.HasPrefix and strings.Contains
unfoldable pub has_prefix : String → String → Bool
has_prefix s String.[] = true
has_prefix String.[] (String.◌∷◌ d t) = false
has_prefix (String.◌∷◌ c s) (String.◌∷◌ d t) = nat_eq (code c) (code d) && has_prefix s t

unfoldable pub contains : String → String → Bool
unfolding has_prefix
contains String.[] t = has_prefix String.[] t
contains (String.◌∷◌ c s) t = has_prefix (String.◌∷◌ c s) t || contains s t
