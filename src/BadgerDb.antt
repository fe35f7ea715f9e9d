-- ===== src/BadgerDb.antt =====
-- backend/internal/badgerdb: the database over a badger transaction. db_ops.go has the reads and
-- writes of one key, badgerdb.go the calls of the interface; a call is given whether its transaction
-- is writable.
pub mod Keys
pub mod Order
pub mod BalanceKeys
pub mod Latest
pub mod Writes
pub mod Stored
pub mod Chain
pub mod Rollback
pub mod Sample
mod Tests
use dcrros.Prelude.{
  ℕ, String, Bool, true, false, not, Option, none, some, List, [], ◌∷◌, ◌++◌, nat_eq, ◌||◌, ◌%◌,
  if◌then◌else◌,
}
use dcrros.Prelude.Lists.{length}
use dcrros.Prelude.Bytes.{high_bytes, big_number, read_bytes, drop}
use dcrros.Prelude.Words.{add64, sub64}
use dcrros.Prelude.Maps.{Map, insert}
use dcrros.Prelude.Results.{
  Result, ok, err, panic, Action, pure, throw, crash, continue, throw_if, ◌>>=◌, ◌>>◌,
}
use dcrros.Prelude.Outcomes.{error_to, ◌>>=◌ as and_then}
use dcrros.BackendDb.{
  Error, plain, block_height_not_found, not_tip, block_already_processed, not_extending_tip,
  already_closed, OutPoint, outpoint_comparable,
}
use dcrros.BadgerDb.Keys.{
  last_processed_block_key, account_balance_key_prefix, account_balance_at_height_key,
  extract_account_balance_key_height, processed_block_key, block_account_key, account_utxo_key,
  extract_account_utxo_key_outpoint,
}

-- badger.ErrKeyNotFound, and any other error
pub data KeyError : Type 0 where
  key_not_found : KeyError
  failed : Error → KeyError

abbrev pub key_error : KeyError → Error
key_error KeyError.key_not_found = plain "Key not found"
key_error (KeyError.failed e) = e

-- A transaction of badger, with its own writes: Get, Set and Delete; the entries under a prefix,
-- as an iterator gives them; and the entry that a reverse iterator with a prefix
-- finds from a key on, if it is valid.
pub record Txn (S : Type 0) : Type 0 where
  pub get : List ℕ → S → Result KeyError (List ℕ)
  pub set : List ℕ → List ℕ → Action Error S (Unit {0})
  pub delete : List ℕ → Action Error S (Unit {0})
  pub items : List ℕ → S → List (List ℕ × List ℕ)
  pub seek_back : List ℕ → List ℕ → S → Option (List ℕ × List ℕ)

-- A read that changes nothing.
abbrev pub reads : {S A : Type 0} → (S → Result Error A) → Action Error S A
reads f s = (f s, s)

-- v[:32], then the height, which must be there.
abbrev pub height_after : List ℕ → Option (List ℕ × List ℕ) → Result Error (ℕ × ℕ)
height_after hash none = panic
height_after hash (some (b, rest)) = ok (big_number hash, big_number b)

abbrev pub hash_and_height : Option (List ℕ × List ℕ) → Result Error (ℕ × ℕ)
hash_and_height none = panic
hash_and_height (some (hash, rest)) = height_after hash (read_bytes 8 rest)

abbrev pub hash_in : Option (List ℕ × List ℕ) → Result KeyError ℕ
hash_in none = panic
hash_in (some (hash, rest)) = ok (big_number hash)

abbrev pub tip_in : Result KeyError (List ℕ) → Result Error (ℕ × ℕ)
tip_in (ok v) = hash_and_height (read_bytes 32 v)
tip_in (err KeyError.key_not_found) = ok (0, 0)
tip_in (err (KeyError.failed e)) = err e
tip_in panic = panic

abbrev pub balance_in : ℕ → List ℕ → Result Error (ℕ × ℕ)
balance_in last_height v =
    if not (nat_eq (length v) 8)
    then err (plain "wrong size in balance value")
    else ok (big_number v, last_height)

-- No entry for an account: its balance is zero.
abbrev pub found_balance : Option (List ℕ × List ℕ) → Result Error (ℕ × ℕ)
found_balance none = ok (0, 0)
found_balance (some (k, v)) =
    and_then (extract_account_balance_key_height k) (λ last_height. balance_in last_height v)

-- The value of a utxo: its first eight bytes.
abbrev pub amount_in : Option (List ℕ × List ℕ) → Result Error ℕ
amount_in none = panic
amount_in (some (b, rest)) = ok (big_number b)

unfoldable pub utxos_in : List (List ℕ × List ℕ) → Map OutPoint ℕ → Result Error (Map OutPoint ℕ)
utxos_in [] utxos = ok utxos
utxos_in ((k, v) ∷ items) utxos =
    and_then (extract_account_utxo_key_outpoint k)
      (λ o. and_then (amount_in (read_bytes 8 v)) (λ amt. utxos_in items (insert o amt utxos)))

abbrev pub accounts_in : ℕ → List (List ℕ × List ℕ) → List (List ℕ)
accounts_in n [] = []
accounts_in n ((k, v) ∷ items) = drop n k ∷ accounts_in n items

module _ {S : Type 0} (db : Txn S) where
  -- db_ops.go
  unfoldable pub fetch_account_balance_at : List ℕ → ℕ → S → Result Error (ℕ × ℕ)
  fetch_account_balance_at account height s = found_balance (
      db.seek_back (account_balance_key_prefix ++ account)
        (account_balance_at_height_key account height) s)

  unfoldable pub put_account_balance_at : List ℕ → ℕ → ℕ → Action Error S (Unit {0})
  put_account_balance_at account height amount =
      db.set (account_balance_at_height_key account height) (high_bytes 8 amount)

  unfoldable pub del_account_balance_at : List ℕ → ℕ → Action Error S (Unit {0})
  del_account_balance_at account height = db.delete (account_balance_at_height_key account height)

  unfoldable pub put_last_processed_account_block : ℕ → ℕ → Action Error S (Unit {0})
  put_last_processed_account_block hash height =
      db.set last_processed_block_key (high_bytes 32 hash ++ high_bytes 8 height)

  unfoldable pub fetch_last_processed_account_block : S → Result Error (ℕ × ℕ)
  fetch_last_processed_account_block s = tip_in (db.get last_processed_block_key s)

  unfoldable pub put_processed_block : ℕ → ℕ → Action Error S (Unit {0})
  put_processed_block hash height = db.set (processed_block_key height) (high_bytes 32 hash)

  unfoldable pub del_processed_block : ℕ → Action Error S (Unit {0})
  del_processed_block height = db.delete (processed_block_key height)

  unfoldable pub fetch_processed_block_hash : ℕ → S → Result KeyError ℕ
  fetch_processed_block_hash height s =
      and_then (db.get (processed_block_key height) s) (λ v. hash_in (read_bytes 32 v))

  unfoldable pub put_block_account : ℕ → List ℕ → Action Error S (Unit {0})
  put_block_account height account = db.set (block_account_key height account) []

  unfoldable pub fetch_block_accounts : ℕ → S → List (List ℕ)
  fetch_block_accounts height s =
      let key_prefix = block_account_key height [] in
      accounts_in (length key_prefix) (db.items key_prefix s)

  abbrev pub put_account_utxo : List ℕ → Option OutPoint → ℕ → Action Error S (Unit {0})
  put_account_utxo account none amount = throw (plain "outpoint's utxo cannot be nil")
  put_account_utxo account (some o) amount =
      db.set (account_utxo_key account (some o)) (high_bytes 8 amount)

  unfoldable pub fetch_account_utxos : List ℕ → S → Result Error (Map OutPoint ℕ)
  fetch_account_utxos account s = utxos_in (db.items (account_utxo_key account none) s) []

  -- badgerdb.go
  unfoldable pub balance : List ℕ → ℕ → Action Error S ℕ
  balance account height =
      reads (λ s. and_then (fetch_account_balance_at account height s) (λ r. ok r.0))

  unfoldable pub last_processed_block : Action Error S (ℕ × ℕ)
  last_processed_block = reads fetch_last_processed_account_block

  abbrev pub height_error : KeyError → Error
  height_error KeyError.key_not_found = block_height_not_found
  height_error (KeyError.failed e) = e

  unfoldable pub processed_block_hash : ℕ → Action Error S ℕ
  processed_block_hash height =
      reads (λ s. error_to height_error (fetch_processed_block_hash height s))

  -- for _, acct := range accounts
  unfoldable pub del_balances : List (List ℕ) → ℕ → Action Error S (Unit {0})
  del_balances [] height = pure tt
  del_balances (account ∷ accounts) height =
      del_account_balance_at account height >> del_balances accounts height

  unfoldable pub rollback_tip : Bool → ℕ → ℕ → Action Error S (Unit {0})
  rollback_tip writable block_hash height = do
    throw_if (not writable) (plain "unwritable tx")
    tip ← last_processed_block
    throw_if (not (nat_eq tip.1 height) || not (nat_eq tip.0 block_hash)) not_tip
    accounts ← reads (λ s. ok (fetch_block_accounts height s))
    del_balances accounts height
    prev ← reads (λ s. error_to key_error (fetch_processed_block_hash (sub64 height 1) s))
    del_processed_block height
    put_last_processed_account_block prev (sub64 height 1)

  -- for account, balance := range balances
  unfoldable pub put_balances : ℕ → Map (List ℕ) ℕ → Action Error S (Unit {0})
  put_balances height [] = pure tt
  put_balances height ((account, amount) ∷ balances) = do
    put_balances height balances
    put_account_balance_at account height amount
    put_block_account height account

  -- What `StoreBalances` makes of the block that is stored at the height.
  abbrev pub refuse_processed : Result KeyError ℕ → Result Error (Unit {0})
  refuse_processed (ok hash) = err block_already_processed
  refuse_processed (err KeyError.key_not_found) = ok tt
  refuse_processed (err (KeyError.failed e)) = err e
  refuse_processed panic = panic

  unfoldable pub store_balances : Bool → ℕ → ℕ → Map (List ℕ) ℕ → Action Error S (Unit {0})
  store_balances writable block_hash height balances = do
    throw_if (not writable) (plain "unwritable tx")
    reads (λ s. refuse_processed (fetch_processed_block_hash height s))
    tip ← last_processed_block
    throw_if (not (nat_eq height (add64 tip.1 1))) not_extending_tip
    put_balances height balances
    put_processed_block block_hash height
    put_last_processed_account_block block_hash height

  unfoldable pub add_utxo : Bool → List ℕ → Option OutPoint → ℕ → Action Error S (Unit {0})
  add_utxo writable account o amount =
      throw_if (not writable) (plain "unwritable tx") >> put_account_utxo account o amount

  -- With no outpoint, the key deleted is the prefix alone.
  unfoldable pub del_utxo : Bool → List ℕ → Option OutPoint → Action Error S (Unit {0})
  del_utxo writable account o =
      throw_if (not writable) (plain "unwritable tx") >> db.delete (account_utxo_key account o)

  unfoldable pub list_utxos : List ℕ → Action Error S (Map OutPoint ℕ)
  list_utxos account = reads (fetch_account_utxos account)
