-- ===== src/BadgerDb/Writes.antt =====
-- backend/internal/badgerdb: what the writes of `StoreBalances` leave under each key.
use dcrros.Prelude.{
  ℕ, ◌^◌, ◌<◌, ◌≡◌, ◌↔◌, refl, sym, ap, ◌∙◌, Bool, true, false, ◌&&◌, nat_eq, nat_eq→eq,
  nat_eq_refl, Option, none, some, List, [], ◌∷◌, ◌++◌, if◌then◌else◌, arith,
}
use dcrros.Prelude.Keys.{Comparable}
use dcrros.Prelude.Maps.{Map, lookup}
use dcrros.Prelude.Lists.{All}
use mathlib.Core.Path.{subst}
use dcrros.Prelude.Bytes.{high_bytes, starts_with}
use dcrros.BadgerDb.Order.{bytes_le}
use dcrros.Prelude.Results.{Result, ok, err}
use dcrros.Prelude.Outcomes.{ok-injective}
use dcrros.BadgerDb.{KeyError, Txn, put_account_balance_at, put_block_account, put_balances}
use dcrros.BadgerDb.Keys.{
  last_processed_block_key, processed_block_key, account_balance_key_prefix,
  account_balance_at_height_key, block_account_key, extract_account_balance_key_height,
}
use dcrros.BadgerDb.BalanceKeys.{
  HasNoNul, same_account_key, key-bytes_le, key-starts_with,
  extract_account_balance_key_height-account_balance_at_height_key,
}

unfoldable pub bytes_eq : List ℕ → List ℕ → Bool
bytes_eq [] [] = true
bytes_eq (x ∷ xs) (y ∷ ys) = nat_eq x y && bytes_eq xs ys
bytes_eq _ _ = false

bytes_eq-eq : (xs ys : List ℕ) → bytes_eq xs ys ≡ true → xs ≡ ys
unfolding bytes_eq
bytes_eq-eq [] [] h = refl
bytes_eq-eq [] (y ∷ ys) h = absurd cc
bytes_eq-eq (x ∷ xs) [] h = absurd cc
bytes_eq-eq (x ∷ xs) (y ∷ ys) h =
    let equal : x ≡ y = ground (arith, h) in
    ap (λ z. z ∷ xs) equal ∙ ap (λ zs. y ∷ zs) (bytes_eq-eq xs ys (ground (arith, h)))

bytes_eq_refl : (xs : List ℕ) → bytes_eq xs xs ≡ true
unfolding bytes_eq
bytes_eq_refl [] = refl
bytes_eq_refl (x ∷ xs) = rw (nat_eq_refl x, bytes_eq_refl xs) refl

pub bytes_eq_iff : (xs ys : List ℕ) → (bytes_eq xs ys ≡ true) ↔ (xs ≡ ys)
bytes_eq_iff xs ys =
    (λ h. bytes_eq-eq xs ys h, λ e. ap (λ zs. bytes_eq xs zs) (sym e) ∙ bytes_eq_refl xs)

instance abbrev pub bytes_comparable : Comparable (List ℕ)
bytes_comparable = record { equal = bytes_eq; equal_iff = bytes_eq_iff }

-- What badger says of a transaction that takes writes, within its limit of size: a write is read back
-- under its key and changes no other, and so for a removal.
pub record IsTxn {S : Type 0} (db : Txn S) : Type 1 where
  pub IsWritable : S → Type 0
  pub get-set :
      (k v : List ℕ) (s : S)
      → IsWritable s
      → (s' : S) × ((db.set k v s ≡ (ok tt, s'))
          × (IsWritable s'
              × ((j : List ℕ) → db.get j s' ≡ (if bytes_eq k j then ok v else db.get j s))))
  pub get-delete :
      (k : List ℕ) (s : S)
      → IsWritable s
      → (s' : S) × ((db.delete k s ≡ (ok tt, s'))
          × (IsWritable s'
              × ((j : List ℕ)
                  → db.get j s'
                    ≡ (if bytes_eq k j then err KeyError.key_not_found else db.get j s))))

-- What stands under a key after the balances of a block are put, over what stood there.
abbrev pub written :
    List ℕ → ℕ → Map (List ℕ) ℕ → Result KeyError (List ℕ) → Result KeyError (List ℕ)
written k height [] old = old
written k height ((account, amount) ∷ balances) old =
    if bytes_eq (block_account_key height account) k
    then ok []
    else if bytes_eq (account_balance_at_height_key account height) k
    then ok (high_bytes 8 amount)
    else written k height balances old

module _ {S : Type 0} (db : Txn S) (laws : IsTxn db) where
  pub put_balances-written :
      (height : ℕ) (balances : Map (List ℕ) ℕ) (s : S)
      → laws.IsWritable s
      → (s' : S) × ((put_balances db height balances s ≡ (ok tt, s'))
          × (laws.IsWritable s'
              × ((k : List ℕ) → db.get k s' ≡ written k height balances (db.get k s))))
  unfolding put_balances put_account_balance_at put_block_account
  put_balances-written height [] s h = (s, (refl, (h, λ k. refl)))
  put_balances-written height ((account, amount) ∷ balances) s h =
      let (s1, (put, (h1, got1))) = put_balances-written height balances s h in
      let balance_key = account_balance_at_height_key account height in
      let (s2, (put2, (h2, got2))) = laws.get-set balance_key (high_bytes 8 amount) s1 h1 in
      let (s3, (put3, (h3, got3))) = laws.get-set (block_account_key height account) [] s2 h2 in
      (s3, (rw (put, put2, put3) refl, (h3, λ k. rw (got3 k, got2 k, got1 k) refl)))

-- Accounts without a zero byte have keys of their own.
pub key_injective :
    (account other : List ℕ) (height j : ℕ)
    → HasNoNul account
    → HasNoNul other
    → height < 2 ^ 64
    → j < 2 ^ 64
    → account_balance_at_height_key other j ≡ account_balance_at_height_key account height
    → (other ≡ account) × (j ≡ height)
key_injective account other height j h k small j_small e =
    let heights = ap (λ k. extract_account_balance_key_height k) e in
    let same_height : j ≡ height =
      ok-injective _ j height
        (extract_account_balance_key_height-account_balance_at_height_key other j j_small)
        (heights
          ∙ extract_account_balance_key_height-account_balance_at_height_key account height
              small) in
    let front =
      subst (λ k. starts_with (account_balance_key_prefix ++ account) k ≡ true) (sym e)
        (key-starts_with account height) in
    let le =
      subst (λ k. bytes_le k (account_balance_at_height_key account height) ≡ true) (sym e)
        (key-bytes_le account height height small small (omega arith)) in
    (same_account_key account other j height h k front le, same_height)

-- The key of a balance is none of the other kinds.
pub block_account_key-other :
    (height j : ℕ) (account other : List ℕ)
    → bytes_eq (block_account_key height account) (account_balance_at_height_key other j) ≡ false
unfolding bytes_eq block_account_key account_balance_at_height_key
block_account_key-other height j account other = refl

pub processed_block_key-other :
    (height j : ℕ) (other : List ℕ)
    → bytes_eq (processed_block_key height) (account_balance_at_height_key other j) ≡ false
unfolding bytes_eq processed_block_key account_balance_at_height_key
processed_block_key-other height j other = refl

pub last_processed_block_key-other :
    (j : ℕ) (other : List ℕ)
    → bytes_eq last_processed_block_key (account_balance_at_height_key other j) ≡ false
unfolding bytes_eq account_balance_at_height_key
last_processed_block_key-other j other = refl

both_true : (a b : Bool) → (a ≡ true → b ≡ true) → (b ≡ true → a ≡ true) → a ≡ b
both_true true b f g = sym (f refl)
both_true false true f g = g refl
both_true false false f g = refl

pub bytes_eq-key :
    (account other : List ℕ) (height j : ℕ)
    → HasNoNul account
    → HasNoNul other
    → height < 2 ^ 64
    → j < 2 ^ 64
    → bytes_eq
        (account_balance_at_height_key account height)
        (account_balance_at_height_key other j)
      ≡ (bytes_eq account other && nat_eq height j)
bytes_eq-key account other height j h k small j_small =
    both_true
      (bytes_eq (account_balance_at_height_key account height)
        (account_balance_at_height_key other j))
      (bytes_eq account other && nat_eq height j)
      (λ same.
        let (names, heights) =
          key_injective other account j height k h j_small small (bytes_eq-eq _ _ same) in
        rw (names, heights, bytes_eq_refl other, nat_eq_refl j) refl)
      (λ same.
        let names : bytes_eq account other ≡ true = ground (arith, same) in
        let heights : nat_eq height j ≡ true = ground (arith, same) in
        rw (bytes_eq-eq account other names, nat_eq→eq height j heights)
          (bytes_eq_refl (account_balance_at_height_key other j)))

-- The balances of a block: accounts without a zero byte, and int64 amounts.
abbrev pub AreNamed : Map (List ℕ) ℕ → Type 0
AreNamed balances = All (λ e. HasNoNul e.0 × (e.1 < 2 ^ 64)) balances

abbrev pub value_or : Option ℕ → Result KeyError (List ℕ) → Result KeyError (List ℕ)
value_or none old = old
value_or (some amount) old = ok (high_bytes 8 amount)

pub same_either : (b : Bool) (old : Result KeyError (List ℕ)) → old ≡ (if b then old else old)
same_either true old = refl
same_either false old = refl

first_or_rest :
    (names heights : Bool) (amount : ℕ) (rest : Option ℕ) (old : Result KeyError (List ℕ))
    → (if names && heights
        then ok (high_bytes 8 amount)
        else if heights
        then value_or rest old
        else old)
      ≡ (if heights then value_or (if names then some amount else rest) old else old)
first_or_rest true true amount rest old = refl
first_or_rest true false amount rest old = refl
first_or_rest false true amount rest old = refl
first_or_rest false false amount rest old = refl

pub written-key :
    (account : List ℕ) (height j : ℕ) (balances : Map (List ℕ) ℕ) (old : Result KeyError (List ℕ))
    → HasNoNul account
    → height < 2 ^ 64
    → j < 2 ^ 64
    → AreNamed balances
    → written (account_balance_at_height_key account j) height balances old
      ≡ (if nat_eq height j then value_or (lookup account balances) old else old)
unfolding lookup
written-key account height j [] old named small j_small all = same_either (nat_eq height j) old
written-key account height j ((other, amount) ∷ balances) old named small j_small ((h, _), all) =
    rw
      (
        block_account_key-other height j other account,
        bytes_eq-key other account height j h named small j_small,
        written-key account height j balances old named small j_small all,
      )
      (first_or_rest (bytes_eq other account) (nat_eq height j) amount (lookup account balances)
        old)
