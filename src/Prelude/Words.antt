-- ===== src/Prelude/Words.antt =====
-- int64, as Go has it: a bit pattern below 2 ^ 64, with wrap-around written out. A pattern from
-- 2 ^ 63 on stands for a negative number.
use Prim.Native.Nat.{ℕ, ◌+◌, ◌-◌, ◌%◌, ◌^◌, ◌<◌}
use mathlib.Core.Bool.{Bool}
use dcrros.Prelude.Tests.{ltb, leb}

abbrev pub word_size : ℕ
word_size = 2 ^ 64

abbrev pub IsWord : ℕ → Type 0
IsWord a = a < word_size

-- a + b, a - b and -a
abbrev pub add64 : ℕ → ℕ → ℕ
add64 a b = (a + b) % 2 ^ 64

abbrev pub sub64 : ℕ → ℕ → ℕ
sub64 a b = (a + (2 ^ 64 - b % 2 ^ 64)) % 2 ^ 64

abbrev pub neg64 : ℕ → ℕ
neg64 a = (2 ^ 64 - a % 2 ^ 64) % 2 ^ 64

-- The place of a pattern in the signed order.
abbrev pub rank : ℕ → ℕ
rank a = (a + 2 ^ 63) % 2 ^ 64

-- a < b and a <= b on int64
abbrev pub slt : ℕ → ℕ → Bool
slt a b = ltb (rank a) (rank b)

abbrev pub sle : ℕ → ℕ → Bool
sle a b = leb (rank a) (rank b)
