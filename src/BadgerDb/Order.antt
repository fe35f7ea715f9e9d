-- ===== src/BadgerDb/Order.antt =====
-- The order of keys in a badger database, byte by byte, and heights in big-endian form.
use dcrros.Prelude.{
  ℕ, zero, suc, ◌/◌, ◌%◌, ◌<◌, ◌≤◌, ◌≡◌, refl, sym, ap, ◌∙◌, inl, inr, Bool, true, false, ◌&&◌,
  ◌||◌, List, [], ◌∷◌, ◌++◌, ltb, nat_eq, nat_eq_refl, nat_eq→eq, nat_eq→ne, ltb→lt, lt→ltb, ◌⊎◌,
  Bool-cases, arith,
}
use dcrros.Prelude.Lists.{length}
use dcrros.Prelude.Bytes.{
  high_bytes, big_number, capacity, big_number-high_bytes, length-high_bytes, starts_with,
}

-- bytes.Compare(xs, ys) <= 0
unfoldable pub bytes_le : List ℕ → List ℕ → Bool
bytes_le [] ys = true
bytes_le (x ∷ xs) [] = false
bytes_le (x ∷ xs) (y ∷ ys) = ltb x y || (nat_eq x y && bytes_le xs ys)

-- A common front is passed over.
pub bytes_le-append : (front xs ys : List ℕ) → bytes_le (front ++ xs) (front ++ ys) ≡ bytes_le xs ys
unfolding bytes_le
bytes_le-append [] xs ys = refl
bytes_le-append (x ∷ front) xs ys = ground (arith, bytes_le-append front xs ys)

pub starts_with-append : (front rest : List ℕ) → starts_with front (front ++ rest) ≡ true
unfolding starts_with
starts_with-append [] rest = refl
starts_with-append (x ∷ front) rest = rw (nat_eq_refl x, starts_with-append front rest) refl

cons_head : (x y : ℕ) (xs ys : List ℕ) → x ∷ xs ≡ y ∷ ys → x ≡ y
cons_head x y xs ys e = cc

cons_tail : (x y : ℕ) (xs ys : List ℕ) → x ∷ xs ≡ y ∷ ys → xs ≡ ys
cons_tail x y xs ys e = cc

-- What the first bytes say
first_le :
    (x y : ℕ) (r : Bool) → (ltb x y || (nat_eq x y && r)) ≡ true → (x < y) ⊎ ((x ≡ y) × (r ≡ true))
first_le x y r h = elim (Bool-cases (ltb x y)) [
  | inl less ↦ inl (ltb→lt x y less)
  | inr not_less ↦ inr (ground (arith, h, not_less), ground (arith, h, not_less))
]

lt_first : (x y : ℕ) (r : Bool) → x < y → (ltb x y || (nat_eq x y && r)) ≡ true
lt_first x y r h = rw (lt→ltb x y h) refl

eq_first : (x y : ℕ) (r : Bool) → x ≡ y → r ≡ true → (ltb x y || (nat_eq x y && r)) ≡ true
eq_first x y r h k = ground (arith, h, k)

-- Sequences of the same length with one more byte each
bytes_le-snoc :
    (xs ys : List ℕ) (b c : ℕ)
    → length xs ≡ length ys
    → bytes_le (xs ++ b ∷ []) (ys ++ c ∷ []) ≡ true
    → (bytes_le xs ys ≡ true) × (xs ≡ ys → b ≤ c)
unfolding bytes_le
bytes_le-snoc [] [] b c same h = (refl, λ e. ground (arith, h))
bytes_le-snoc [] (y ∷ ys) b c same h = absurd (omega (arith, same))
bytes_le-snoc (x ∷ xs) [] b c same h = absurd (omega (arith, same))
bytes_le-snoc (x ∷ xs) (y ∷ ys) b c same h = elim (first_le x y _ h) [
  | inl less ↦
      (lt_first x y (bytes_le xs ys) less, λ e. absurd (omega (arith, less, cons_head x y xs ys e)))
  | inr (equal, rest) ↦
      let (upper, last) = bytes_le-snoc xs ys b c (omega (arith, same)) rest in
      (eq_first x y (bytes_le xs ys) equal upper, λ e. last (cons_tail x y xs ys e))
]

snoc-bytes_le :
    (xs ys : List ℕ) (b c : ℕ)
    → length xs ≡ length ys
    → bytes_le xs ys ≡ true
    → (xs ≡ ys → b ≤ c)
    → bytes_le (xs ++ b ∷ []) (ys ++ c ∷ []) ≡ true
unfolding bytes_le
snoc-bytes_le [] [] b c same h last = ground (arith, last refl)
snoc-bytes_le [] (y ∷ ys) b c same h last = absurd (omega (arith, same))
snoc-bytes_le (x ∷ xs) [] b c same h last = absurd (omega (arith, same))
snoc-bytes_le (x ∷ xs) (y ∷ ys) b c same h last = elim (first_le x y (bytes_le xs ys) h) [
  | inl less ↦ lt_first x y (bytes_le (xs ++ b ∷ []) (ys ++ c ∷ [])) less
  | inr (equal, rest) ↦ eq_first x y (bytes_le (xs ++ b ∷ []) (ys ++ c ∷ [])) equal (
      snoc-bytes_le xs ys b c (omega (arith, same)) rest
        (λ e. last (ap (λ z. z ∷ xs) equal ∙ ap (λ zs. y ∷ zs) e)))
]

same_length : (k n m : ℕ) → length (high_bytes k n) ≡ length (high_bytes k m)
same_length k n m = length-high_bytes k n ∙ sym (length-high_bytes k m)

pub high_bytes_injective :
    (k n m : ℕ) → n < capacity k → m < capacity k → high_bytes k n ≡ high_bytes k m → n ≡ m
high_bytes_injective k n m h l e =
    sym (big_number-high_bytes k n h) ∙ ap (λ bs. big_number bs) e ∙ big_number-high_bytes k m l

by_parts : (n m : ℕ) → n / 256 ≤ m / 256 → (n / 256 ≡ m / 256 → n % 256 ≤ m % 256) → n ≤ m
by_parts n m h l = elim (Bool-cases (nat_eq (n / 256) (m / 256))) [
  | inl same ↦
      let last = l (nat_eq→eq (n / 256) (m / 256) same) in
      omega (arith, last, nat_eq→eq (n / 256) (m / 256) same)
  | inr other ↦ omega (arith, h, nat_eq→ne (n / 256) (m / 256) other)
]

-- Big-endian forms are in the order of their numbers.
pub bytes_le-high_bytes :
    (k n m : ℕ)
    → n < capacity k
    → m < capacity k
    → bytes_le (high_bytes k n) (high_bytes k m) ≡ true
    → n ≤ m
bytes_le-high_bytes zero n m h l e = omega (arith, h, l)
bytes_le-high_bytes (suc k) n m h l e =
    let (upper, last) =
      bytes_le-snoc (high_bytes k (n / 256)) (high_bytes k (m / 256)) (n % 256) (m % 256)
        (same_length k (n / 256) (m / 256)) e in
    let le =
      bytes_le-high_bytes k (n / 256) (m / 256) (omega (arith, h)) (omega (arith, l)) upper in
    by_parts n m le (λ e. last (ap (λ n. high_bytes k n) e))

pub le-high_bytes :
    (k n m : ℕ)
    → n < capacity k
    → m < capacity k
    → n ≤ m
    → bytes_le (high_bytes k n) (high_bytes k m) ≡ true
unfolding bytes_le
le-high_bytes zero n m h l e = refl
le-high_bytes (suc k) n m h l e =
    snoc-bytes_le (high_bytes k (n / 256)) (high_bytes k (m / 256)) (n % 256) (m % 256)
      (same_length k (n / 256) (m / 256))
      (le-high_bytes k (n / 256) (m / 256) (omega (arith, h)) (omega (arith, l)) (omega (arith, e)))
      (λ same.
        let equal =
          high_bytes_injective k (n / 256) (m / 256) (omega (arith, h)) (omega (arith, l)) same in
        omega (arith, e, equal))
