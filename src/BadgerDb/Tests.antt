-- ===== src/BadgerDb/Tests.antt =====
-- The badger database on a small store.
use dcrros.Prelude.{ℕ, ◌^◌, ◌<◌, ◌≡◌, refl, ◌⊎◌, true, none, some, List, [], ◌∷◌, ◌++◌, arith}
use dcrros.Prelude.Maps.{Map, lookup, insert, insert-IsUnique}
use dcrros.Prelude.Words.{sub64}
use dcrros.Prelude.Bytes.{high_bytes, read_bytes}
use dcrros.Prelude.Results.{ok, err}
use dcrros.BackendDb.{plain}
use dcrros.BadgerDb.{
  KeyError, balance, store_balances, rollback_tip, fetch_last_processed_account_block,
  fetch_processed_block_hash,
}
use dcrros.BadgerDb.Keys.{last_processed_block_key, processed_block_key}
use dcrros.BadgerDb.BalanceKeys.{HasNoNul}
use dcrros.BadgerDb.Latest.{HasBalances, Latest}
use dcrros.BadgerDb.Writes.{bytes_comparable, bytes_eq}
use dcrros.BadgerDb.Stored.{IsNext}
use dcrros.BadgerDb.Chain.{balance-store_balances}
use dcrros.BadgerDb.Rollback.{rollback_tip_fails}
use dcrros.BadgerDb.Sample.{Store, store_txn, store_txn-IsTxn, store_txn-IsSeek, store_is_writable}

-- The account "Ds", and "Dsa", which begins with it
abbrev ds : List ℕ
ds = 68 ∷ 115 ∷ []

abbrev dsa : List ℕ
dsa = 68 ∷ 115 ∷ 97 ∷ []

abbrev first_block : Map (List ℕ) ℕ
first_block = (ds, 500) ∷ (dsa, 7) ∷ []

abbrev empty : Store
empty = ([], tt)

empty-HasBalances : HasBalances store_txn empty
unfolding lookup
empty-HasBalances k v e h = absurd cc

empty-IsNext : IsNext store_txn store_txn-IsTxn 1 empty
unfolding fetch_last_processed_account_block fetch_processed_block_hash lookup
empty-IsNext = record {
  writable = store_is_writable empty;
  tip = (0, 0);
  tip_is = refl;
  next = refl;
  missing = refl;
}

balance-store_balances_example :
    (s' : Store) × ((store_balances store_txn true 99 1 first_block empty ≡ (ok tt, s'))
      × (HasBalances store_txn s'
          × (((account : List ℕ) (x : ℕ)
                → HasNoNul account
                → lookup account first_block ≡ some x
                → balance store_txn account 1 s' ≡ (ok x, s'))
              × ((account : List ℕ) (below x : ℕ)
                  → HasNoNul account
                  → below < 2 ^ 64
                  → (lookup account first_block ≡ none) ⊎ (below < 1)
                  → Latest store_txn account below empty x
                  → balance store_txn account below s' ≡ (ok x, s')))))
balance-store_balances_example =
    balance-store_balances store_txn store_txn-IsTxn store_txn-IsSeek 99 1 first_block empty
      (omega arith)
      (
        ((omega arith, (omega arith, tt)), omega arith),
        (((omega arith, (omega arith, (omega arith, tt))), omega arith), tt),
      )
      empty-HasBalances empty-IsNext

-- The database after the first block
abbrev after_first : Store
after_first = (
  insert last_processed_block_key (high_bytes 32 99 ++ high_bytes 8 1) [],
  insert-IsUnique last_processed_block_key (high_bytes 32 99 ++ high_bytes 8 1) [] tt,
)

first_is_tip : fetch_last_processed_account_block store_txn after_first ≡ ok (99, 1)
unfolding fetch_last_processed_account_block lookup insert read_bytes bytes_eq
first_is_tip = refl

no_genesis :
    fetch_processed_block_hash store_txn (sub64 1 1) after_first ≡ err KeyError.key_not_found
unfolding fetch_processed_block_hash lookup insert processed_block_key bytes_eq
no_genesis = refl

rollback_tip_fails_example :
    (s' : Store) × (rollback_tip store_txn true 99 1 after_first
      ≡ (err (plain "Key not found"), s'))
rollback_tip_fails_example =
    rollback_tip_fails store_txn store_txn-IsTxn 99 1 after_first (store_is_writable after_first)
      first_is_tip no_genesis
