-- ===== src/BadgerDb/Latest.antt =====
-- backend/internal/badgerdb: what `Balance` finds with its reverse iterator.
use dcrros.Prelude.{
  ℕ, suc, ◌^◌, ◌<◌, ◌≤◌, ◌≡◌, ◌≢◌, refl, sym, ap, ◌∙◌, inl, inr, ◌⊎◌, true, nat_eq, nat_eq→eq,
  nat_eq→ne, Bool-cases, Option, none, some, List, ◌++◌, arith,
}
use dcrros.Prelude.Lists.{length}
use dcrros.Prelude.Bytes.{big_number, starts_with}
use dcrros.Prelude.Results.{ok}
use dcrros.Prelude.Outcomes.{ok-injective}
use dcrros.BadgerDb.{Txn, found_balance, fetch_account_balance_at, balance}
use dcrros.BadgerDb.Keys.{account_balance_key_prefix, account_balance_at_height_key}
use dcrros.BadgerDb.Order.{bytes_le}
use dcrros.BadgerDb.BalanceKeys.{
  HasNoNul, same_account_key, starts_with_less, bytes_le-key, key-bytes_le, key-starts_with,
  extract_account_balance_key_height-account_balance_at_height_key,
}

-- What badger says of a reverse iterator with a prefix: from a key on, it finds the greatest key not
-- after it that has the prefix, if there is one.
pub record IsSeek {S : Type 0} (db : Txn S) : Type 0 where
  pub found :
      (prefix from k v : List ℕ) (s : S)
      → db.seek_back prefix from s ≡ some (k, v)
      → (db.get k s ≡ ok v) × ((starts_with prefix k ≡ true) × (bytes_le k from ≡ true))
  pub last :
      (prefix from k v : List ℕ) (s : S)
      → db.get k s ≡ ok v
      → starts_with prefix k ≡ true
      → bytes_le k from ≡ true
      → (j : List ℕ) × ((w : List ℕ) × ((db.seek_back prefix from s ≡ some (j, w))
            × (bytes_le k j ≡ true)))

-- An entry of a balance: its account has no zero byte, and its value is eight bytes.
pub record IsEntry (k v : List ℕ) : Type 0 where
  pub account : List ℕ
  pub height : ℕ
  pub key : k ≡ account_balance_at_height_key account height
  pub named : HasNoNul account
  pub small : height < 2 ^ 64
  pub sized : length v ≡ 8

-- The entries under "act/" are balances.
abbrev pub HasBalances : {S : Type 0} → Txn S → S → Type 0
HasBalances db s =
    (k v : List ℕ)
    → db.get k s ≡ ok v
    → starts_with account_balance_key_prefix k ≡ true
    → IsEntry k v

some_key :
    (k j v w : List ℕ) (r : Option (List ℕ × List ℕ)) → r ≡ some (k, v) → r ≡ some (j, w) → k ≡ j
some_key k j v w r e e' = cc

module _ {S : Type 0} (db : Txn S) where
  -- No entry of the account at the heights above one, up to another.
  abbrev pub NoneAbove : List ℕ → ℕ → ℕ → S → Type 0
  NoneAbove account low high s =
      (j : ℕ) (v : List ℕ)
      → low ≤ j
      → j ≤ high
      → db.get (account_balance_at_height_key account j) s ≢ ok v

  -- The balance that the entry of the account at the greatest height up to one has, or zero.
  abbrev pub Latest : List ℕ → ℕ → S → ℕ → Type 0
  Latest account height s x =
      ((j : ℕ) × ((v : List ℕ) × ((j ≤ height)
            × ((db.get (account_balance_at_height_key account j) s ≡ ok v)
                × ((x ≡ big_number v) × NoneAbove account (suc j) height s)))))
      ⊎ ((x ≡ 0) × NoneAbove account 0 height s)

  module _ (laws : IsSeek db) where
    -- What the iterator stops at is an entry of the account.
    seek_back-entry :
        (account : List ℕ) (height : ℕ) (s : S) (k v : List ℕ)
        → HasNoNul account
        → height < 2 ^ 64
        → HasBalances db s
        → db.seek_back
            (account_balance_key_prefix ++ account)
            (account_balance_at_height_key account height)
            s
          ≡ some (k, v)
        → (j : ℕ) × ((k ≡ account_balance_at_height_key account j)
            × ((j ≤ height) × ((j < 2 ^ 64) × ((db.get k s ≡ ok v) × (length v ≡ 8)))))
    seek_back-entry account height s k v named small balances e =
        let (got, (starts, le)) =
          laws.found (account_balance_key_prefix ++ account)
            (account_balance_at_height_key account height) k v s e in
        let entry =
          balances k v got (starts_with_less account_balance_key_prefix account k starts) in
        let same =
          same_account_key account entry.account entry.height height named entry.named
            (rw entry.key at starts) (rw entry.key at le) in
        let key = entry.key ∙ ap (λ a. account_balance_at_height_key a entry.height) same in
        (
          entry.height,
          (
            key,
            (
              bytes_le-key account entry.height height entry.small small (rw key at le),
              (entry.small, (got, entry.sized)),
            ),
          ),
        )

    -- The balance that is read from an entry of the account
    found_balance-entry :
        (account : List ℕ) (j : ℕ) (k v : List ℕ)
        → k ≡ account_balance_at_height_key account j
        → j < 2 ^ 64
        → length v ≡ 8
        → found_balance (some (k, v)) ≡ ok (big_number v, j)
    found_balance-entry account j k v key small sized =
        rw
          (
            key,
            extract_account_balance_key_height-account_balance_at_height_key account j small,
            sized,
          )
          refl

    -- The greatest entry is the one that is found.
    found-Latest :
        (account : List ℕ) (height j : ℕ) (k v : List ℕ) (s : S) (x : ℕ)
        → height < 2 ^ 64
        → db.seek_back
            (account_balance_key_prefix ++ account)
            (account_balance_at_height_key account height)
            s
          ≡ some (k, v)
        → k ≡ account_balance_at_height_key account j
        → j ≤ height
        → db.get k s ≡ ok v
        → Latest account height s x
        → big_number v ≡ x
    found-Latest account height j k v s x small e key le got (inr (zero, above)) =
        absurd (above j v (omega arith) le (rw key at got))
    found-Latest account height j k v s x small e key le got
          (inl (i, (w, (i_le, (got_i, (value, above)))))) =
        let from = account_balance_at_height_key account height in
        let (k', (v', (e', after))) =
          laws.last (account_balance_key_prefix ++ account) from
            (account_balance_at_height_key account i) w s got_i (key-starts_with account i)
            (key-bytes_le account i height (omega (arith, i_le)) small i_le) in
        let same : k' ≡ k = some_key k' k v' v _ e' e in
        let key_after = rw (same ∙ key) at after in
        let i_le_j = bytes_le-key account i j (omega (arith, i_le)) (omega (arith, le)) key_after in
        elim (Bool-cases (nat_eq i j)) [
          | inl equal ↦
              let got_here =
                rw
                  (key
                    ∙ ap (λ n. account_balance_at_height_key account n) (sym (nat_eq→eq i j equal)))
                  at got in
              ap (λ bs. big_number bs) (ok-injective _ v w got_here got_i) ∙ sym value
          | inr other ↦
              absurd (above j v (omega (arith, i_le_j, nat_eq→ne i j other)) le (rw key at got))
        ]

    -- With what the iterator gives
    balance-seek :
        (account : List ℕ) (height : ℕ) (s : S) (x : ℕ) (r : Option (List ℕ × List ℕ))
        → HasNoNul account
        → height < 2 ^ 64
        → HasBalances db s
        → Latest account height s x
        → db.seek_back
            (account_balance_key_prefix ++ account)
            (account_balance_at_height_key account height)
            s
          ≡ r
        → (h : ℕ) × (found_balance r ≡ ok (x, h))
    balance-seek account height s x none named small balances (inr (zero, above)) e =
        (0, ap (λ n. ok (n, 0)) (sym zero))
    balance-seek account height s x none named small balances
          (inl (i, (w, (i_le, (got_i, (value, above)))))) e =
        let (k', (v', (e', after))) =
          laws.last (account_balance_key_prefix ++ account)
            (account_balance_at_height_key account height) (account_balance_at_height_key account i)
            w s got_i (key-starts_with account i)
            (key-bytes_le account i height (omega (arith, i_le)) small i_le) in
        absurd cc
    balance-seek account height s x (some (k, v)) named small balances latest e =
        let (j, (key, (le, (j_small, (got, sized))))) =
          seek_back-entry account height s k v named small balances e in
        (
          j,
          found_balance-entry account j k v key j_small sized
              ∙ ap (λ n. ok (n, j))
                  (found-Latest account height j k v s x small e key le got latest),
        )

    -- Balance gives the balance that the entry of the account at the greatest height up to the one
    -- asked for has, and zero if there is none, and changes nothing. The account has no zero byte,
    -- nor has any account in the database, and the height is an unsigned word.
    pub balance-Latest :
        (account : List ℕ) (height : ℕ) (s : S) (x : ℕ)
        → HasNoNul account
        → height < 2 ^ 64
        → HasBalances db s
        → Latest account height s x
        → balance db account height s ≡ (ok x, s)
    unfolding balance fetch_account_balance_at
    balance-Latest account height s x named small balances latest =
        let (h, found) = balance-seek account height s x _ named small balances latest refl in
        rw found refl
