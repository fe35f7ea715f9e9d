-- ===== src/Prelude/Bytes.antt =====
-- Sequences of bytes: the little-endian and big-endian forms of a number, and reads of a buffer.
use Prim.Native.Nat.{ℕ, zero, suc, ◌+◌, ◌-◌, ◌*◌, ◌/◌, ◌%◌, ◌^◌, ◌<◌}
use mathlib.Core.Path.{◌≡◌, refl}
use mathlib.Core.Option.{Option, none, some}
use mathlib.Core.List.{List, [], ◌∷◌, ◌++◌}
use native.Mathlib.Omega.{arith}
use mathlib.Core.Bool.{Bool, true, false, ◌&&◌}
use dcrros.Prelude.Tests.{nat_eq}
use dcrros.Prelude.Lists.{length, length-append, All}

abbrev pub IsByte : ℕ → Type 0
IsByte b = b < 2 ^ 8

-- binary.LittleEndian, with the number of bytes, and back.
abbrev pub low_bytes : ℕ → ℕ → List ℕ
low_bytes zero n = []
low_bytes (suc k) n = n % 256 ∷ low_bytes k (n / 256)

abbrev pub number_of : List ℕ → ℕ
number_of [] = 0
number_of (b ∷ bs) = b + 256 * number_of bs

abbrev pub capacity : ℕ → ℕ
capacity zero = 1
capacity (suc k) = 256 * capacity k

pub number_of-low_bytes : (k n : ℕ) → n < capacity k → number_of (low_bytes k n) ≡ n
number_of-low_bytes zero n h = omega arith
number_of-low_bytes (suc k) n h = omega (arith, number_of-low_bytes k (n / 256) (omega arith))

pub low_bytes-IsByte : (k n : ℕ) → All IsByte (low_bytes k n)
low_bytes-IsByte zero n = tt
low_bytes-IsByte (suc k) n = (omega arith, low_bytes-IsByte k (n / 256))

pub append-All {ℓ κ} :
    {A : Type ℓ} (P : A → Type κ) (xs ys : List A) → All P xs → All P ys → All P (xs ++ ys)
append-All P [] ys h k = k
append-All P (x ∷ xs) ys (h, hs) k = (h, append-All P xs ys hs k)

abbrev pub with_byte : ℕ → Option (List ℕ × List ℕ) → Option (List ℕ × List ℕ)
with_byte b none = none
with_byte b (some (bs, rest)) = some (b ∷ bs, rest)

-- A full read of so many bytes, and what it leaves in the buffer.
unfoldable pub read_bytes : ℕ → List ℕ → Option (List ℕ × List ℕ)
read_bytes zero bs = some ([], bs)
read_bytes (suc n) [] = none
read_bytes (suc n) (b ∷ bs) = with_byte b (read_bytes n bs)

pub read_bytes-append : (xs rest : List ℕ) → read_bytes (length xs) (xs ++ rest) ≡ some (xs, rest)
unfolding read_bytes
read_bytes-append [] rest = refl
read_bytes-append (x ∷ xs) rest = rw (read_bytes-append xs rest) refl

pub read_bytes-low_bytes :
    (k n : ℕ) (rest : List ℕ) → read_bytes k (low_bytes k n ++ rest) ≡ some (low_bytes k n, rest)
unfolding read_bytes
read_bytes-low_bytes zero n rest = refl
read_bytes-low_bytes (suc k) n rest = rw (read_bytes-low_bytes k (n / 256) rest) refl

-- binary.BigEndian, with the number of bytes, and back.
abbrev pub high_bytes : ℕ → ℕ → List ℕ
high_bytes zero n = []
high_bytes (suc k) n = high_bytes k (n / 256) ++ n % 256 ∷ []

abbrev pub number_from : ℕ → List ℕ → ℕ
number_from n [] = n
number_from n (b ∷ bs) = number_from (n * 256 + b) bs

abbrev pub big_number : List ℕ → ℕ
big_number bs = number_from 0 bs

number_from-snoc :
    (n : ℕ) (bs : List ℕ) (b : ℕ) → number_from n (bs ++ b ∷ []) ≡ number_from n bs * 256 + b
number_from-snoc n [] b = refl
number_from-snoc n (c ∷ bs) b = number_from-snoc (n * 256 + c) bs b

pub big_number-high_bytes : (k n : ℕ) → n < capacity k → big_number (high_bytes k n) ≡ n
big_number-high_bytes zero n h = omega arith
big_number-high_bytes (suc k) n h = omega (
  arith,
  number_from-snoc 0 (high_bytes k (n / 256)) (n % 256),
  big_number-high_bytes k (n / 256) (omega arith),
)

pub length-high_bytes : (k n : ℕ) → length (high_bytes k n) ≡ k
length-high_bytes zero n = refl
length-high_bytes (suc k) n =
    omega
      (arith, length-append (high_bytes k (n / 256)) (n % 256 ∷ []), length-high_bytes k (n / 256))

-- bytes.HasPrefix(bs, prefix)
unfoldable pub starts_with : List ℕ → List ℕ → Bool
starts_with [] bs = true
starts_with (p ∷ ps) [] = false
starts_with (p ∷ ps) (b ∷ bs) = nat_eq p b && starts_with ps bs

-- bs[n:]
abbrev pub drop : ℕ → List ℕ → List ℕ
drop zero bs = bs
drop (suc n) [] = []
drop (suc n) (b ∷ bs) = drop n bs

-- The last bytes, so many.
abbrev pub last_bytes : ℕ → List ℕ → List ℕ
last_bytes n bs = drop (length bs - n) bs
