-- ===== src/BadgerDb/BalanceKeys.antt =====
-- backend/internal/badgerdb/db_ops.go: the keys of balances, in their order. The prefix of an iterator
-- ends with the account, so the keys of longer accounts have it too.
use dcrros.Prelude.{
  ℕ, ◌^◌, ◌<◌, ◌≤◌, ◌≡◌, refl, sym, ap, ◌∙◌, true, List, [], ◌∷◌, ◌++◌, nat_eq_refl, le→leb, arith,
}
use mathlib.Core.List.{append_assoc}
use dcrros.Prelude.Lists.{length, length-append, All}
use dcrros.Prelude.Bytes.{high_bytes, big_number-high_bytes, length-high_bytes, starts_with, drop}
use dcrros.Prelude.Results.{ok}
use dcrros.BadgerDb.Keys.{
  account_balance_key_prefix, account_balance_at_height_key, key_end,
  extract_account_balance_key_height,
}
use dcrros.BadgerDb.Order.{
  bytes_le, bytes_le-append, starts_with-append, bytes_le-high_bytes, le-high_bytes,
}

-- An account without a zero byte.
abbrev pub HasNoNul : List ℕ → Type 0
HasNoNul account = All (λ b. 1 ≤ b) account

pub starts_with-front :
    (front prefix bs : List ℕ) → starts_with (front ++ prefix) (front ++ bs) ≡ starts_with prefix bs
unfolding starts_with
starts_with-front [] prefix bs = refl
starts_with-front (x ∷ front) prefix bs = rw (nat_eq_refl x, starts_with-front front prefix bs) refl

-- Of the accounts that begin with an account, only the account itself is not after it.
pub same_account :
    (account other after_other after : List ℕ)
    → HasNoNul account
    → HasNoNul other
    → starts_with account (other ++ 0 ∷ after_other) ≡ true
    → bytes_le (other ++ 0 ∷ after_other) (account ++ 0 ∷ after) ≡ true
    → other ≡ account
unfolding starts_with bytes_le
same_account [] [] after_other after h k starts le = refl
same_account [] (y ∷ other) after_other after h (positive, k) starts le =
    absurd (ground (arith, positive, le))
same_account (x ∷ account) [] after_other after (positive, h) k starts le =
    absurd (ground (arith, positive, starts))
same_account (x ∷ account) (y ∷ other) after_other after (_, h) (_, k) starts le =
    let equal : x ≡ y = ground (arith, starts) in
    let rest =
      same_account account other after_other after h k (ground (arith, starts))
        (ground (arith, equal, le)) in
    ap (λ z. z ∷ other) (sym equal) ∙ ap (λ zs. x ∷ zs) rest

drop-append : (front rest : List ℕ) → drop (length front) (front ++ rest) ≡ rest
drop-append [] rest = refl
drop-append (x ∷ front) rest = drop-append front rest

key_end-append : (front rest : List ℕ) → key_end (length rest) (front ++ rest) ≡ ok rest
key_end-append front rest =
    rw (le→leb (length rest) (length (front ++ rest)) (omega (arith, length-append front rest))) (
      ap (λ n. ok (drop n (front ++ rest))) (omega (arith, length-append front rest))
      ∙ ap (λ bs. ok bs) (drop-append front rest))

abbrev key_front : List ℕ → List ℕ
key_front account = account_balance_key_prefix ++ (account ++ 0 ∷ [])

key-front :
    (account : List ℕ) (height : ℕ)
    → account_balance_at_height_key account height ≡ key_front account ++ high_bytes 8 height
unfolding account_balance_at_height_key
key-front account height =
    ap (λ bs. account_balance_key_prefix ++ bs)
      (sym (append_assoc account (0 ∷ []) (high_bytes 8 height)))

-- The height is read back from a key.
pub extract_account_balance_key_height-account_balance_at_height_key :
    (account : List ℕ) (height : ℕ)
    → height < 2 ^ 64
    → extract_account_balance_key_height (account_balance_at_height_key account height) ≡ ok height
unfolding extract_account_balance_key_height
extract_account_balance_key_height-account_balance_at_height_key account height h =
    let end = key_end-append (key_front account) (high_bytes 8 height) in
    rw (key-front account height, rw (length-high_bytes 8 height) at end)
      (ap (λ n. ok n) (big_number-high_bytes 8 height h))

-- Keys of one account are in the order of their heights.
pub bytes_le-key :
    (account : List ℕ) (j height : ℕ)
    → j < 2 ^ 64
    → height < 2 ^ 64
    → bytes_le
        (account_balance_at_height_key account j)
        (account_balance_at_height_key account height)
      ≡ true
    → j ≤ height
bytes_le-key account j height h k le = bytes_le-high_bytes 8 j height h k (
    sym (bytes_le-append (key_front account) (high_bytes 8 j) (high_bytes 8 height))
    ∙ rw (key-front account j, key-front account height) at le)

pub key-bytes_le :
    (account : List ℕ) (j height : ℕ)
    → j < 2 ^ 64
    → height < 2 ^ 64
    → j ≤ height
    → bytes_le
        (account_balance_at_height_key account j)
        (account_balance_at_height_key account height)
      ≡ true
key-bytes_le account j height h k le =
    rw (key-front account j, key-front account height)
      (bytes_le-append (key_front account) (high_bytes 8 j) (high_bytes 8 height)
        ∙ le-high_bytes 8 j height h k le)

pub key-starts_with :
    (account : List ℕ) (j : ℕ)
    → starts_with (account_balance_key_prefix ++ account) (account_balance_at_height_key account j)
      ≡ true
unfolding account_balance_at_height_key
key-starts_with account j =
    starts_with-front account_balance_key_prefix account (account ++ 0 ∷ high_bytes 8 j)
    ∙ starts_with-append account (0 ∷ high_bytes 8 j)

pub same_account_key :
    (account other : List ℕ) (j height : ℕ)
    → HasNoNul account
    → HasNoNul other
    → starts_with (account_balance_key_prefix ++ account) (account_balance_at_height_key other j)
      ≡ true
    → bytes_le
        (account_balance_at_height_key other j)
        (account_balance_at_height_key account height)
      ≡ true
    → other ≡ account
unfolding account_balance_at_height_key
same_account_key account other j height h k starts le =
    same_account account other (high_bytes 8 j) (high_bytes 8 height) h k
      (sym (starts_with-front account_balance_key_prefix account (other ++ 0 ∷ high_bytes 8 j))
        ∙ starts)
      (sym (
          bytes_le-append account_balance_key_prefix (other ++ 0 ∷ high_bytes 8 j)
            (account ++ 0 ∷ high_bytes 8 height))
        ∙ le)

pub starts_with_less :
    (front more k : List ℕ) → starts_with (front ++ more) k ≡ true → starts_with front k ≡ true
unfolding starts_with
starts_with_less [] more k h = refl
starts_with_less (x ∷ front) more [] h = h
starts_with_less (x ∷ front) more (y ∷ k) h =
    let rest = starts_with_less front more k (ground (arith, h)) in ground (arith, h, rest)
