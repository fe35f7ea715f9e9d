-- ===== src/Types/Amount.antt =====
-- types/amount.go: amounts as decimal texts.
use dcrros.Prelude.{ℕ, ◌^◌, ◌<◌, ◌≡◌, refl, String, not, Option, none, some, nat_eq, if◌then◌else◌}
use text.Mathlib.Text.{◌==◌ as str_eq}
use dcrros.Prelude.Results.{Result, ok, err}
use dcrros.Types.Errors.{GoError}
use dcrros.Types.Rosetta.{Currency, Amount}
use dcrros.Types.Text.{parse_int}
use dcrros.Types.Text.Digits.{format_int, parse_int-format_int}

abbrev pub currency_symbol : Currency
currency_symbol = record { symbol = "DCR"; decimals = 8 }

unfoldable pub dcr_amount_to_rosetta : ℕ → Amount
dcr_amount_to_rosetta amt = record { value = format_int amt; currency = some currency_symbol }

abbrev pub err_nil_amount : GoError
err_nil_amount = GoError.other "nil amount"

abbrev pub err_nil_currency : GoError
err_nil_currency = GoError.other "nil currency"

abbrev pub err_wrong_currency_symbol : GoError
err_wrong_currency_symbol = GoError.other "currency symbol does not match required value"

abbrev pub err_wrong_currency_decimals : GoError
err_wrong_currency_decimals = GoError.other "currency decimals does not match required value"

abbrev pub err_invalid_amount_int : GoError
err_invalid_amount_int = GoError.other "invalid int amount"

-- The value that strconv gives beside an error is left out: no caller reads it.
abbrev pub parsed_amount : Option ℕ → Result GoError ℕ
parsed_amount none = err (GoError.wrapped "%w: %v" err_invalid_amount_int)
parsed_amount (some i) = ok i

abbrev pub amount_in : String → Option Currency → Result GoError ℕ
amount_in value none = err err_nil_currency
amount_in value (some c) =
    if not (str_eq c.symbol currency_symbol.symbol)
    then err err_wrong_currency_symbol
    else if not (nat_eq c.decimals currency_symbol.decimals)
    then err err_wrong_currency_decimals
    else parsed_amount (parse_int 10 64 value)

unfoldable pub rosetta_to_dcr_amount : Option Amount → Result GoError ℕ
rosetta_to_dcr_amount none = err err_nil_amount
rosetta_to_dcr_amount (some a) = amount_in a.value a.currency

-- Every amount is read back from its Rosetta form.
pub rosetta_to_dcr_amount-dcr_amount_to_rosetta :
    (x : ℕ) → x < 2 ^ 64 → rosetta_to_dcr_amount (some (dcr_amount_to_rosetta x)) ≡ ok x
unfolding rosetta_to_dcr_amount dcr_amount_to_rosetta
rosetta_to_dcr_amount-dcr_amount_to_rosetta x h = rw (parse_int-format_int x h) refl
