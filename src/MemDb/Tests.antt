-- ===== src/MemDb/Tests.antt =====
-- The in-memory database (memdb.go) on concrete data.
use dcrros.Prelude.{
  ℕ, String, ◌≡◌, refl, ◌≢◌, true, false, none, some, [], ◌∷◌, arith, inl, inr, Bool-cases,
}
use dcrros.Prelude.Maps.{Map, lookup, insert, erase, insert_all}
use dcrros.Prelude.Keys.{nat_comparable, ◌==◌, string_comparable}
use dcrros.Prelude.Results.{ok, err, panic, throw, ◌>>◌}
use dcrros.BackendDb.{OutPoint, outpoint_comparable, not_tip}
use dcrros.MemDb.State.{MemDb, Conn, new_mem_db, new_transaction}
use dcrros.MemDb.Search.{search}
use dcrros.MemDb.Balances.{
  slice_at, balance, balance_from, stored_balance, search_balance, pick_balance, tip_of,
  store_balances,
}
use dcrros.MemDb.Rollback.{rollback_tip}
use dcrros.MemDb.Utxos.{add_utxo, del_utxo, listing}
use dcrros.MemDb.Commit.{update, commit}
use dcrros.MemDb.History.{history}
use dcrros.MemDb.Chain.{balance-latest, IsValid, stored, stored-IsValid}
use dcrros.MemDb.Stored.{opened, balance-update_store_balances}
use dcrros.MemDb.Buckets.{buckets, stored_in}
use dcrros.MemDb.CommitView.{IsBucketed, CanCommit, listing-commit, commit-IsBucketed}
use dcrros.MemDb.Undo.{
  after_block, rollback_tip-after_block, first_rollback_panics, update_keeps_rollback,
}
use dcrros.MemDb.Readded.{readded_stays_listed}

abbrev first_out : OutPoint
first_out = record { hash = 501; index = 0; tree = 0 }

abbrev second_out : OutPoint
second_out = record { hash = 502; index = 1; tree = 0 }

abbrev third_out : OutPoint
third_out = record { hash = 503; index = 0; tree = 1 }

-- Two blocks; "a" was changed by both of them, "b" by the second.
abbrev two_blocks : MemDb
two_blocks = record new_mem_db {
  balances =
      ("a", record { height = 1; balance = 10 } ∷ record { height = 2; balance = 30 } ∷ [])
      ∷ ("b", record { height = 2; balance = 5 } ∷ [])
      ∷ [];
  last_block_hash = 102;
  last_height = 2;
  processed_blocks =
      (1, record { hash = 101; accounts = "a" ∷ [] })
      ∷ (2, record { hash = 102; accounts = "a" ∷ "b" ∷ [] })
      ∷ [];
  few_utxos =
      ("a", record { outp = first_out; amt = 10 } ∷ record { outp = second_out; amt = 20 } ∷ [])
      ∷ [];
}

abbrev reading : Conn
reading = record { db = two_blocks; tx = new_transaction false }

abbrev writing : Conn
writing = record { db = two_blocks; tx = new_transaction true }

abbrev third_balances : Map String ℕ
third_balances = ("b", 9) ∷ ("c", 4) ∷ []

balance-latest_example : balance "a" 7 reading ≡ (ok 30, reading)
unfolding lookup
balance-latest_example = balance-latest "a" 7 reading (omega arith) (omega arith)

balance_between : balance "a" 1 reading ≡ (ok 10, reading)
unfolding balance balance_from stored_balance search_balance pick_balance search lookup
balance_between = refl

new_IsValid : IsValid (record { db = new_mem_db; tx = new_transaction true })
unfolding tip_of lookup
new_IsValid = record { sorted = λ a. tt; bounded = λ a. tt; tip_word = omega arith; unique = tt }

stored-IsValid_example :
    IsValid (stored 101 1 third_balances (record { db = new_mem_db; tx = new_transaction true }))
unfolding tip_of lookup
stored-IsValid_example =
    stored-IsValid 101 third_balances (record { db = new_mem_db; tx = new_transaction true })
      new_IsValid (omega arith) (refl, (refl, tt))

two_blocks-IsBucketed : IsBucketed two_blocks
unfolding lookup
two_blocks-IsBucketed k = elim (Bool-cases ("a" == k)) [
  | inl same ↦ rw same (refl, (refl, tt))
  | inr other ↦ rw other tt
]

-- The transaction adds a utxo of "c" and removes one of "a".
abbrev spending : Conn
spending = record {
  db = two_blocks;
  tx = record (new_transaction true) {
    utxos = ("c", (third_out, 4) ∷ []) ∷ [];
    del_utxos = ("a", (first_out, tt) ∷ []) ∷ [];
  };
}

spending-CanCommit : CanCommit spending
unfolding lookup
spending-CanCommit = record {
  bucketed = two_blocks-IsBucketed;
  new = (refl, (refl, tt), (λ o. inr refl), tt);
  unique = (refl, tt);
}

listing-commit_example :
    lookup first_out (listing (record { db = commit spending; tx = new_transaction false }) "a")
    ≡ lookup first_out (listing spending "a")
listing-commit_example = listing-commit spending false "a" first_out spending-CanCommit

listing-spending :
    (lookup first_out (listing spending "a") ≡ none)
    × (lookup second_out (listing spending "a") ≡ some 20)
    × (lookup third_out (listing spending "c") ≡ some 4)
unfolding listing lookup insert insert_all erase
listing-spending = (refl, refl, refl)

commit-IsBucketed_example : IsBucketed (commit spending)
commit-IsBucketed_example = commit-IsBucketed spending spending-CanCommit

rollback_tip-after_block_example :
    let db' = after_block 103 3 third_balances two_blocks in
    (c : Conn) × (rollback_tip 103 3 (record { db = db'; tx = new_transaction true }) ≡ (ok tt, c))
    × (tip_of c ≡ (102, 2))
    × ((a : String) → history c a ≡ slice_at two_blocks.balances a)
unfolding lookup
rollback_tip-after_block_example =
    rollback_tip-after_block 103 third_balances two_blocks
      (record { hash = 102; accounts = "a" ∷ "b" ∷ [] }) (omega arith) (refl, (refl, tt)) refl

-- The database after block 1, below which no block is stored.
abbrev one_block : MemDb
one_block = record new_mem_db {
  balances = ("a", record { height = 1; balance = 10 } ∷ []) ∷ [];
  last_block_hash = 101;
  last_height = 1;
  processed_blocks = (1, record { hash = 101; accounts = "a" ∷ [] }) ∷ [];
}

first_rollback_panics_example :
    let db' = after_block 101 1 third_balances new_mem_db in
    (c : Conn) × (rollback_tip 101 1 (record { db = db'; tx = new_transaction true }) ≡ (panic, c))
    × ((a : String) → slice_at c.db.balances a ≡ slice_at new_mem_db.balances a)
    × (c.db.last_block_hash ≡ 101)
    × (c.db.last_height ≡ 1)
    × (lookup 1 c.db.processed_blocks ≡ none)
unfolding lookup
first_rollback_panics_example =
    first_rollback_panics 101 third_balances new_mem_db (omega arith) (refl, (refl, tt)) refl

balance-update_store_balances_example :
    (db' : MemDb) × (before : ℕ) × ((update (store_balances 101 1 third_balances) new_mem_db
        ≡ (ok tt, db'))
      × (balance "b" 5 (opened false new_mem_db) ≡ (ok before, opened false new_mem_db))
      × (balance "b" 5 (opened false db') ≡ (ok 9, opened false db')))
unfolding lookup tip_of
balance-update_store_balances_example =
    balance-update_store_balances 101 third_balances new_mem_db new_IsValid (omega arith)
      (refl, (refl, tt)) refl "b" 5 false (omega arith)

update_keeps_rollback_example :
    let db' = after_block 103 3 third_balances two_blocks in
    (db'' : MemDb) × (update (rollback_tip 103 3 >> throw {A = ℕ} not_tip) db'
      ≡ (err not_tip, db''))
    × ((a : String) → slice_at db''.balances a ≡ slice_at two_blocks.balances a)
    × (db''.last_height ≡ 3)
    × (db''.last_block_hash ≡ 103)
unfolding lookup
update_keeps_rollback_example =
    update_keeps_rollback 103 third_balances two_blocks
      (record { hash = 102; accounts = "a" ∷ "b" ∷ [] }) not_tip (omega arith) (refl, (refl, tt))
      refl

readded_stays_listed_example :
    let db' = (update (del_utxo "a" first_out >> add_utxo "a" first_out 10) two_blocks).1 in
    let db'' = (update (del_utxo "a" first_out) db').1 in
    stored_in (buckets db'' "a") first_out ≢ none
unfolding lookup
readded_stays_listed_example =
    readded_stays_listed "a" (record { outp = first_out; amt = 10 })
      (record { outp = first_out; amt = 10 } ∷ record { outp = second_out; amt = 20 } ∷ [])
      two_blocks refl (omega arith) (λ e. cc)
