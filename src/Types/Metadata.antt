-- ===== src/Types/Metadata.antt =====
-- types/transactions.go: the values in a map of metadata. A function that finds nothing leaves the
-- caller's variable alone, so a default goes with the read.
use dcrros.Prelude.{
  ℕ, ◌-◌, ◌%◌, ◌^◌, String, Bool, true, false, Option, none, some, List, leb, nat_eq, if◌then◌else◌,
}
use text.Mathlib.Text.{◌==◌ as str_eq}
use dcrros.Prelude.Keys.{string_comparable}
use dcrros.Prelude.Maps.{Map, lookup}
use dcrros.Prelude.Results.{Result, ok, err, panic}
use dcrros.Types.Errors.{GoError}
use dcrros.Types.Rosetta.{Value}
use dcrros.Types.Text.{hex_decode}

-- errKeyNotFound, and the other errors by their text
pub data MetaError : Type 0 where
  key_not_found bad_value : String → MetaError

-- A number that the integer type has: float64(int8(v)) == v, as a bit pattern.
abbrev pub float_to_int8 : Bool → ℕ → Option ℕ
float_to_int8 true n = if leb n 128 then some ((2 ^ 8 - n) % 2 ^ 8) else none
float_to_int8 false n = if leb n 127 then some n else none

-- float64(uint16(v)) == v, float64(uint32(v)) == v; minus zero is zero.
abbrev pub float_to_uint : ℕ → Bool → ℕ → Option ℕ
float_to_uint bits true n = if nat_eq n 0 then some 0 else none
float_to_uint bits false n = if leb n (2 ^ bits - 1) then some n else none

abbrev pub checked : {A : Type 0} → String → Option A → Result MetaError A
checked message none = err (MetaError.bad_value message)
checked message (some x) = ok x

abbrev pub as_int8 : Value → Result MetaError ℕ
as_int8 (Value.whole negative n) =
    checked "float64 value '%g' is not a valid int8" (float_to_int8 negative n)
as_int8 Value.fraction = checked "float64 value '%g' is not a valid int8" none
as_int8 (Value.int8 v) = ok v
as_int8 _ = checked "unconvertable type %T to int8" none

abbrev pub as_uint16 : Value → Result MetaError ℕ
as_uint16 (Value.whole negative n) =
    checked "float64 value '%g' is not a valid uint16" (float_to_uint 16 negative n)
as_uint16 Value.fraction = checked "float64 value '%g' is not a valid uint16" none
as_uint16 (Value.uint16 v) = ok v
as_uint16 _ = checked "unconvertable type %T to uint16" none

abbrev pub as_uint32 : Value → Result MetaError ℕ
as_uint32 (Value.whole negative n) =
    checked "float64 value '%g' is not a valid uint32" (float_to_uint 32 negative n)
as_uint32 Value.fraction = checked "float64 value '%g' is not a valid uint32" none
as_uint32 (Value.uint32 v) = ok v
as_uint32 _ = checked "unconvertable type %T to uint32" none

abbrev pub as_hex : Value → Result MetaError (List ℕ)
as_hex (Value.text s) = checked "encoding/hex: %v" (hex_decode s)
as_hex _ = checked "unconvertable type %T to chainhash.Hash" none

abbrev pub value_as :
    {A : Type 0} → (Value → Result MetaError A) → String → Option Value → Result MetaError A
value_as read k none = err (MetaError.key_not_found k)
value_as read k (some v) = read v

unfoldable pub metadata_int8 : Map String Value → String → Result MetaError ℕ
metadata_int8 m k = value_as as_int8 k (lookup k m)

unfoldable pub metadata_uint16 : Map String Value → String → Result MetaError ℕ
metadata_uint16 m k = value_as as_uint16 k (lookup k m)

unfoldable pub metadata_uint32 : Map String Value → String → Result MetaError ℕ
metadata_uint32 m k = value_as as_uint32 k (lookup k m)

unfoldable pub metadata_hex : Map String Value → String → Result MetaError (List ℕ)
metadata_hex m k = value_as as_hex k (lookup k m)

-- err != nil && !errors.Is(err, errKeyNotFound(k)): a missing key leaves the value.
abbrev pub or_default : {A : Type 0} → String → GoError → A → Result MetaError A → Result GoError A
or_default k e d (ok v) = ok v
or_default k e d (err (MetaError.key_not_found k')) = if str_eq k' k then ok d else err e
or_default k e d (err (MetaError.bad_value t)) = err e
or_default k e d panic = panic
