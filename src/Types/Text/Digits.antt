-- ===== src/Types/Text/Digits.antt =====
-- strconv.FormatInt in base 10, and the digits of numbers read back.
use Prim.Native.Char.{Char, code}
use dcrros.Prelude.{
  ℕ, zero, suc, ◌+◌, ◌-◌, ◌*◌, ◌/◌, ◌%◌, ◌^◌, ◌<◌, ◌≤◌, ◌≡◌, refl, sym, ap, ◌∙◌, ◌⊎◌, inl, inr,
  String, Bool, true, false, ◌&&◌, ◌||◌, Option, none, some, ltb, nat_eq, nat_eq→eq, Bool-cases,
  if◌then◌else◌, arith,
}
use mathlib.Core.Path.{subst}
use dcrros.Prelude.Words.{neg64}
use dcrros.Types.Address.{hex_digit}
use dcrros.Types.Text.{digit_value, read_digits, parse_uint, parse_int}

-- A test that holds of all numbers below a bound.
abbrev pub all_below : ℕ → (ℕ → Bool) → Bool
all_below zero f = true
all_below (suc k) f = f k && all_below k f

pub all_below_lem : (k n : ℕ) (f : ℕ → Bool) → all_below k f ≡ true → n < k → f n ≡ true
all_below_lem zero n f e h = absurd (omega arith)
all_below_lem (suc k) n f e h = elim (Bool-cases (nat_eq n k)) [
  | inl q ↦ rw (nat_eq→eq n k q) (ground arith)
  | inr q ↦ all_below_lem k n f (ground arith) (ground arith)
]

abbrev is_some : Option ℕ → ℕ → Bool
is_some none n = false
is_some (some m) n = nat_eq m n

is_some_lem : (o : Option ℕ) (n : ℕ) → is_some o n ≡ true → o ≡ some n
is_some_lem none n e = ground arith
is_some_lem (some m) n e = ap some (nat_eq→eq m n e)

pub digit_value-hex_digit : (n : ℕ) → n < 16 → digit_value 16 (code (hex_digit n)) ≡ some n
unfolding hex_digit digit_value
digit_value-hex_digit n h =
    is_some_lem (digit_value 16 (code (hex_digit n))) n
      (all_below_lem 16 n (λ n. is_some (digit_value 16 (code (hex_digit n))) n) refl h)

pub digit_value-decimal : (n : ℕ) → n < 10 → digit_value 10 (code (hex_digit n)) ≡ some n
unfolding hex_digit digit_value
digit_value-decimal n h =
    is_some_lem (digit_value 10 (code (hex_digit n))) n
      (all_below_lem 10 n (λ n. is_some (digit_value 10 (code (hex_digit n))) n) refl h)

pub hex_digit_unsigned :
    (n : ℕ) → n < 16 → (nat_eq (code (hex_digit n)) 45 || nat_eq (code (hex_digit n)) 43) ≡ false
unfolding hex_digit
hex_digit_unsigned n h =
    let e =
      all_below_lem 16 n
        (λ n.
          if nat_eq (code (hex_digit n)) 45 || nat_eq (code (hex_digit n)) 43 then false else true)
        refl h in
    ground arith

pub hex_digit_plain : (n : ℕ) → n < 16 → nat_eq (code (hex_digit n)) 58 ≡ false
unfolding hex_digit
hex_digit_plain n h =
    let e =
      all_below_lem 16 n (λ n. if nat_eq (code (hex_digit n)) 58 then false else true) refl h in
    ground arith

-- The digits before a text, with as many rounds as the number may have digits.
unfoldable pub format_digits : ℕ → ℕ → String → String
format_digits zero n s = s
format_digits (suc fuel) n s =
    let rest = format_digits fuel (n / 10) (String.◌∷◌ (hex_digit (n % 10)) s) in
    if ltb n 10 then String.◌∷◌ (hex_digit n) s else rest

-- A uint64 has at most twenty digits.
unfoldable pub format_uint : ℕ → String
format_uint n = format_digits 20 n String.[]

-- strconv.FormatInt of an int64 pattern
unfoldable pub format_int : ℕ → String
format_int x = if ltb x (2 ^ 63) then format_uint x else String.◌∷◌ "-" (format_uint (neg64 x))

pub read_digits_nil : (base n : ℕ) → read_digits base n String.[] ≡ some n
unfolding read_digits
read_digits_nil base n = refl

pub read_digits_cons :
    (base n d : ℕ) (c : Char) (s : String)
    → digit_value base (code c) ≡ some d
    → read_digits base n (String.◌∷◌ c s) ≡ read_digits base (n * base + d) s
unfolding read_digits
read_digits_cons base n d c s e = ground arith

-- 10 ^ fuel
abbrev pub power_of_ten : ℕ → ℕ
power_of_ten zero = 1
power_of_ten (suc fuel) = 10 * power_of_ten fuel

pub read_digits-format_digits :
    (fuel n : ℕ) (s : String)
    → n < power_of_ten fuel
    → read_digits 10 0 (format_digits fuel n s) ≡ read_digits 10 n s
unfolding format_digits
read_digits-format_digits zero n s h = ap (λ m. read_digits 10 m s) (omega arith)
read_digits-format_digits (suc fuel) n s h = elim (Bool-cases (ltb n 10)) [
  | inl e ↦ rw e (
      read_digits_cons 10 0 n (hex_digit n) s (digit_value-decimal n (ground arith))
      ∙ ap (λ m. read_digits 10 m s) (omega arith))
  | inr e ↦ rw e (
      read_digits-format_digits fuel (n / 10) (String.◌∷◌ (hex_digit (n % 10)) s) (omega arith)
      ∙ read_digits_cons 10 (n / 10) (n % 10) (hex_digit (n % 10)) s
          (digit_value-decimal (n % 10) (omega arith))
      ∙ ap (λ m. read_digits 10 m s) (omega arith))
]

-- What the digits put before a text begin with.
pub format_digits_first :
    (fuel n : ℕ) (s : String)
    → (0 < fuel ⊎ (d : ℕ) × ((t : String) × ((d < 10) × (s ≡ String.◌∷◌ (hex_digit d) t))))
    → (d : ℕ) × ((t : String) × ((d < 10) × (format_digits fuel n s ≡ String.◌∷◌ (hex_digit d) t)))
unfolding format_digits
format_digits_first zero n s (inl h) = absurd (omega arith)
format_digits_first zero n s (inr h) = h
format_digits_first (suc fuel) n s h = elim (Bool-cases (ltb n 10)) [
  | inl e ↦ rw e (n, (s, (ground arith, refl)))
  | inr e ↦ rw e (
      format_digits_first fuel (n / 10) (String.◌∷◌ (hex_digit (n % 10)) s)
        (inr (n % 10, (s, (omega arith, refl)))))
]

-- A print begins with a digit and is read back.
abbrev pub IsPrint : ℕ → String → Type 0
IsPrint n t =
    (read_digits 10 0 t ≡ some n)
    × ((d : ℕ) × ((s : String) × ((d < 10) × (t ≡ String.◌∷◌ (hex_digit d) s))))

pub format_uint-IsPrint : (n : ℕ) → n < 2 ^ 64 → IsPrint n (format_uint n)
unfolding format_uint
format_uint-IsPrint n h = (
  read_digits-format_digits 20 n String.[] (omega arith) ∙ read_digits_nil 10 n,
  format_digits_first 20 n String.[] (inl (omega arith)),
)

parse_uint_cons :
    (bits n : ℕ) (c : Char) (s : String)
    → n ≤ 2 ^ bits - 1
    → read_digits 10 0 (String.◌∷◌ c s) ≡ some n
    → parse_uint 10 bits (String.◌∷◌ c s) ≡ some n
unfolding parse_uint
parse_uint_cons bits n c s h e = rw e (ground arith)

-- A text without a sign
parse_int_cons :
    (n : ℕ) (c : Char) (s : String)
    → n < 2 ^ 63
    → (nat_eq (code c) 45 || nat_eq (code c) 43) ≡ false
    → parse_uint 10 64 (String.◌∷◌ c s) ≡ some n
    → parse_int 10 64 (String.◌∷◌ c s) ≡ some n
unfolding parse_int
parse_int_cons n c s h plain e = ground arith

parse_int_minus :
    (n : ℕ) (s : String)
    → n ≤ 2 ^ 63
    → parse_uint 10 64 s ≡ some n
    → parse_int 10 64 (String.◌∷◌ "-" s) ≡ some (neg64 n)
unfolding parse_int
parse_int_minus n s h e = rw e (ground arith)

pub parse_uint-IsPrint :
    (bits n : ℕ) (t : String) → n ≤ 2 ^ bits - 1 → IsPrint n t → parse_uint 10 bits t ≡ some n
parse_uint-IsPrint bits n t h (e, (d, (s, (lt, first)))) =
    subst (λ u. parse_uint 10 bits u ≡ some n) (sym first)
      (parse_uint_cons bits n (hex_digit d) s h (subst (λ u. read_digits 10 0 u ≡ some n) first e))

pub parse_int-IsPrint : (n : ℕ) (t : String) → n < 2 ^ 63 → IsPrint n t → parse_int 10 64 t ≡ some n
parse_int-IsPrint n t h (e, (d, (s, (lt, first)))) =
    subst (λ u. parse_int 10 64 u ≡ some n) (sym first)
      (parse_int_cons n (hex_digit d) s h (hex_digit_unsigned d (omega arith)) (
        parse_uint_cons 64 n (hex_digit d) s (omega arith)
          (subst (λ u. read_digits 10 0 u ≡ some n) first e)))

-- Every int64 is read back from its decimal print.
pub parse_int-format_int : (x : ℕ) → x < 2 ^ 64 → parse_int 10 64 (format_int x) ≡ some x
unfolding format_int
parse_int-format_int x h = elim (Bool-cases (ltb x (2 ^ 63))) [
  | inl e ↦ rw e (parse_int-IsPrint x (format_uint x) (ground arith) (format_uint-IsPrint x h))
  | inr e ↦ rw e (
      parse_int_minus (neg64 x) (format_uint (neg64 x)) (ground arith) (
        parse_uint-IsPrint 64 (neg64 x) (format_uint (neg64 x)) (omega arith)
          (format_uint-IsPrint (neg64 x) (omega arith)))
      ∙ ap some (omega arith))
]

-- A text without the separator of an outpoint.
abbrev pub HasNoColon : String → Type 0
HasNoColon String.[] = Unit
HasNoColon (String.◌∷◌ c s) = (nat_eq (code c) 58 ≡ false) × HasNoColon s

format_digits-HasNoColon :
    (fuel n : ℕ) (s : String) → HasNoColon s → HasNoColon (format_digits fuel n s)
unfolding format_digits
format_digits-HasNoColon zero n s h = h
format_digits-HasNoColon (suc fuel) n s h = elim (Bool-cases (ltb n 10)) [
  | inl e ↦ rw e (hex_digit_plain n (ground arith), h)
  | inr e ↦ rw e (
      format_digits-HasNoColon fuel (n / 10) (String.◌∷◌ (hex_digit (n % 10)) s)
        (hex_digit_plain (n % 10) (omega arith), h))
]

pub format_uint-HasNoColon : (n : ℕ) → HasNoColon (format_uint n)
unfolding format_uint
format_uint-HasNoColon n = format_digits-HasNoColon 20 n String.[] tt
