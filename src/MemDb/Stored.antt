-- ===== src/MemDb/Stored.antt =====
-- An `Update` that stores a block (memdb.go), and the balances that `Balance` gives afterwards.
use dcrros.Prelude.{
  ℕ, String, ◌≡◌, refl, sym, ap, ◌∙◌, Bool, true, false, Option, none, some, List, [], ◌∷◌, ◌++◌,
  arith, if◌then◌else◌,
}
use mathlib.Core.Path.{subst}
use mathlib.Core.List.{append-nil}
use dcrros.Prelude.Maps.{Map, lookup, IsUnique}
use dcrros.Prelude.Keys.{string_comparable}
use dcrros.Prelude.Words.{IsWord, add64, sle}
use dcrros.Prelude.Results.{ok}
use dcrros.MemDb.State.{BalanceHeight, MemDb, Conn, new_transaction}
use dcrros.MemDb.Balances.{slice_at, balance, tip_of, store_balances}
use dcrros.MemDb.Commit.{update}
use dcrros.MemDb.Lookup.{IsSorted, latest}
use dcrros.MemDb.History.{entry}
use dcrros.MemDb.Chain.{balance-latest, IsValid, HasRoom, history-stored, stored-IsValid}
use dcrros.MemDb.Undo.{after_block, slice-after_block, history-new}

-- A new transaction of a database
abbrev pub opened : Bool → MemDb → Conn
opened w db = record { db = db; tx = new_transaction w }

-- The balance of a block, if it has one for the account and is not above the height.
abbrev pub updated_by : Option ℕ → ℕ → ℕ → ℕ → ℕ
updated_by none block_height height before = before
updated_by (some x) block_height height before = if sle block_height height then x else before

latest-entry :
    (bs : List BalanceHeight) (block_height height before : ℕ) (o : Option ℕ)
    → latest (bs ++ entry block_height o) height before
      ≡ updated_by o block_height height (latest bs height before)
latest-entry [] block_height height before none = refl
latest-entry [] block_height height before (some x) = refl
latest-entry (b ∷ bs) block_height height before none = rw (append-nil bs) refl
latest-entry (b ∷ bs) block_height height before (some x) = ground (
  arith,
  latest-entry bs block_height height b.balance (some x),
  latest-entry bs block_height height before (some x),
)

update-stores :
    (block_hash : ℕ) (bals : Map String ℕ) (db : MemDb)
    → IsWord db.last_height
    → db.closed ≡ false
    → let height = add64 db.last_height 1 in
      update (store_balances block_hash height bals) db
      ≡ (ok tt, after_block block_hash height bals db)
unfolding update store_balances
update-stores block_hash bals db w open_ = ground arith

IsSorted-after_block :
    (block_hash : ℕ) (bals : Map String ℕ) (db : MemDb) (a : String)
    → IsValid (opened true db)
    → HasRoom (opened true db)
    → IsUnique bals
    → IsSorted (slice_at (after_block block_hash (add64 db.last_height 1) bals db).balances a)
unfolding tip_of
IsSorted-after_block block_hash bals db a v room u =
    let height = add64 db.last_height 1 in
    subst IsSorted
      (history-stored block_hash height bals (opened true db) a u
        ∙ ap (λ (l : List BalanceHeight). l ++ entry height (lookup a bals)) (history-new db true a)
        ∙ sym (slice-after_block block_hash height bals db a u))
      ((stored-IsValid block_hash bals (opened true db) v room u).sorted a)

-- An Update that stores the block after the tip succeeds. In the transactions after it, read-only or
-- not, Balance gives the balance of the block for its accounts, at its height and above, and else
-- what it gave before. The database is open, its histories are sorted and not above the tip, the tip
-- is not the largest int64, and the balances name each account once.
pub balance-update_store_balances :
    (block_hash : ℕ) (bals : Map String ℕ) (db : MemDb)
    → IsValid (opened true db)
    → HasRoom (opened true db)
    → IsUnique bals
    → db.closed ≡ false
    → (account : String) (height : ℕ) (w : Bool) → IsWord height
    → let block_height = add64 db.last_height 1 in
      (db' : MemDb) × (before : ℕ) × ((update (store_balances block_hash block_height bals) db
          ≡ (ok tt, db'))
        × (balance account height (opened w db) ≡ (ok before, opened w db))
        × (balance account height (opened w db')
            ≡ (ok (updated_by (lookup account bals) block_height height before), opened w db')))
unfolding tip_of
balance-update_store_balances block_hash bals db v room u open_ account height w word =
    let block_height = add64 db.last_height 1 in
    let db' = after_block block_hash block_height bals db in
    let bs = slice_at db.balances account in
    let old_sorted = subst IsSorted (history-new db true account) (v.sorted account) in
    let sorted = IsSorted-after_block block_hash bals db account v room u in
    let now =
      balance-latest account height (opened w db') word
        (subst IsSorted (sym (history-new db' w account)) sorted) in
    let then_ =
      balance-latest account height (opened w db) word
        (subst IsSorted (sym (history-new db w account)) old_sorted) in
    (
      db',
      latest bs height 0,
      (
        update-stores block_hash bals db v.tip_word open_,
        then_ ∙ ap (λ l. (ok (latest l height 0), opened w db)) (history-new db w account),
        now
            ∙ ap (λ l. (ok (latest l height 0), opened w db'))
                (history-new db' w account
                  ∙ slice-after_block block_hash block_height bals db account u)
            ∙ ap (λ x. (ok x, opened w db'))
                (latest-entry bs block_height height 0 (lookup account bals)),
      ),
    )
