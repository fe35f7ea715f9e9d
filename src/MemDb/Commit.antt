-- ===== src/MemDb/Commit.antt =====
-- `Update`, `View` and `Close` of the in-memory database (memdb.go). The merge of a finished
-- transaction into the database is `commit`.
use dcrros.Prelude.{
  ℕ, ◌+◌, String, Bool, true, false, not, ◌&&◌, Option, none, some, List, [], ◌∷◌, ◌++◌, ltb,
  nat_eq, if◌then◌else◌,
}
use dcrros.Prelude.Maps.{Map, lookup, insert, erase, insert_all}
use dcrros.Prelude.Keys.{nat_comparable, string_comparable, ◌==◌}
use dcrros.Prelude.Lists.{length, drop_last, last?}
use dcrros.Prelude.Results.{Result, ok, err, panic}
use dcrros.BackendDb.{Error, OutPoint, outpoint_comparable, already_closed}
use dcrros.MemDb.State.{BalanceHeight, Utxo, Transaction, MemDb, Conn, Call, new_transaction}
use dcrros.MemDb.Balances.{or_nil, slice_at}
use dcrros.MemDb.Utxos.{map_at, insert_single, insert_few}

-- db.balances[account] = append(db.balances[account], balances...)
unfoldable pub merge_balances :
    Map String (List BalanceHeight)
    → Map String (List BalanceHeight)
    → Map String (List BalanceHeight)
merge_balances stored [] = stored
merge_balances stored ((account, bals) ∷ rest) =
    let m = merge_balances stored rest in insert account (slice_at m account ++ bals) m

abbrev pub few_utxo_limit : ℕ
few_utxo_limit = 12

abbrev pub is_nil {ℓ} : {A : Type ℓ} → Option A → Bool
is_nil none = true
is_nil (some _) = false

-- The utxo of the single bucket, as a slice.
abbrev pub first_slice : Option Utxo → List Utxo
first_slice none = []
first_slice (some u) = u ∷ []

-- for outp, amt := range utxos { fewUtxos = append(fewUtxos, &utxo{outp, amt}) }
unfoldable pub append_utxos : List Utxo → Map OutPoint ℕ → List Utxo
append_utxos few [] = few
append_utxos few ((outp, amt) ∷ us) = append_utxos few us ++ record { outp = outp; amt = amt } ∷ []

-- for outp, amt := range utxos { db.singleUtxos[acct] = &utxo{outp, amt} }
unfoldable pub put_single : String → Map OutPoint ℕ → Map String Utxo → Map String Utxo
put_single account [] m = m
put_single account ((outp, amt) ∷ us) m =
    insert account (record { outp = outp; amt = amt }) (put_single account us m)

abbrev pub drop_first : String → Option Utxo → Map String Utxo → Map String Utxo
drop_first account none m = m
drop_first account (some _) m = erase account m

abbrev pub drop_few : String → Option (List Utxo) → Map String (List Utxo) → Map String (List Utxo)
drop_few account none m = m
drop_few account (some _) m = erase account m

-- First case of the loop over the added utxos: one utxo of an account with none.
unfoldable pub store_single : String → Map OutPoint ℕ → MemDb → MemDb
unfolding put_single
store_single account us db = record db { single_utxos = put_single account us db.single_utxos }

-- Second case: the slice of the account, with the single utxo moved into it.
unfoldable pub store_few : String → Map OutPoint ℕ → MemDb → MemDb
unfolding append_utxos
store_few account us db =
    let first = lookup account db.single_utxos in
    let few = or_nil (lookup account db.few_utxos) in
    record db {
      single_utxos = drop_first account first db.single_utxos;
      few_utxos = insert account (append_utxos (few ++ first_slice first) us) db.few_utxos;
    }

-- The long tail: a map of the account, with the other two buckets moved into it.
unfoldable pub store_many : String → Map OutPoint ℕ → MemDb → MemDb
unfolding insert_single insert_few
store_many account us db =
    let first = lookup account db.single_utxos in
    let few = lookup account db.few_utxos in
    record db {
      single_utxos = drop_first account first db.single_utxos;
      few_utxos = drop_few account few db.few_utxos;
      utxos =
          insert account
            (insert_all (insert_few (insert_single (map_at db.utxos account) first) few) us)
            db.utxos;
    }

-- One round of the loop over `tx.utxos`.
unfoldable pub merge_account : String → Map OutPoint ℕ → MemDb → MemDb
unfolding store_single store_few store_many
merge_account account us db =
    let first = lookup account db.single_utxos in
    let few = lookup account db.few_utxos in
    let many = lookup account db.utxos in
    let count = length us + length (or_nil few) + length (first_slice first) in
    if is_nil many && is_nil few && is_nil first && nat_eq (length us) 1
    then store_single account us db
    else if is_nil many && ltb count few_utxo_limit
    then store_few account us db
    else store_many account us db

unfoldable pub merge_utxos : Map String (Map OutPoint ℕ) → MemDb → MemDb
unfolding merge_account
merge_utxos [] db = db
merge_utxos ((account, us) ∷ rest) db = merge_account account us (merge_utxos rest db)

-- The last entry of the slice takes the place of the one that goes.
unfoldable pub refill : List Utxo → List Utxo
refill us = elim (last? us) [ none ↦ [] | some l ↦ l ∷ drop_last us ]

-- The scan of `fewUtxos` for an outpoint; `none` if it is not there.
unfoldable pub remove_few : OutPoint → List Utxo → Option (List Utxo)
unfolding refill
remove_few outp [] = none
remove_few outp (u ∷ us) =
    if u.outp == outp
    then some (refill us)
    else elim (remove_few outp us) [ none ↦ none | some vs ↦ some (u ∷ vs) ]

abbrev pub is_outpoint : Option Utxo → OutPoint → Bool
is_outpoint none outp = false
is_outpoint (some u) outp = u.outp == outp

-- delete(db.utxos[acct], outp), which does nothing where that map is nil
unfoldable pub remove_many : String → OutPoint → MemDb → MemDb
remove_many account outp db = elim (lookup account db.utxos) [
  | none ↦ db
  | some us ↦ record db { utxos = insert account (erase outp us) db.utxos }
]

unfoldable pub remove_single : String → OutPoint → Option Utxo → MemDb → MemDb
remove_single account outp first db =
    if is_outpoint first outp
    then record db { single_utxos = erase account db.single_utxos }
    else db

-- `fewUtxos` of the loop is what `db.fewUtxos[acct]` holds after each round.
unfoldable pub remove_from_few : String → OutPoint → MemDb → MemDb
unfolding remove_few
remove_from_few account outp db = elim (remove_few outp (slice_at db.few_utxos account)) [
  | none ↦ db
  | some us ↦ record db { few_utxos = insert account us db.few_utxos }
]

-- One round of the loop over the outpoints to remove; `first` was read before the loop.
unfoldable pub remove_one : String → Option Utxo → OutPoint → MemDb → MemDb
unfolding remove_many remove_single remove_from_few
remove_one account first outp db =
    remove_from_few account outp (remove_single account outp first (remove_many account outp db))

unfoldable pub remove_each : String → Option Utxo → Map OutPoint (Unit {0}) → MemDb → MemDb
unfolding remove_one
remove_each account first [] db = db
remove_each account first ((outp, _) ∷ dels) db =
    remove_one account first outp (remove_each account first dels db)

unfoldable pub remove_utxos : Map String (Map OutPoint (Unit {0})) → MemDb → MemDb
unfolding remove_each
remove_utxos [] db = db
remove_utxos ((account, dels) ∷ rest) db =
    let db' = remove_utxos rest db in remove_each account (lookup account db'.single_utxos) dels db'

-- The balances, processed blocks and tip of the transaction.
unfoldable pub merge_blocks : Transaction → MemDb → MemDb
unfolding merge_balances
merge_blocks tx db = record db {
  balances = merge_balances db.balances tx.balances;
  processed_blocks = insert_all db.processed_blocks tx.processed_blocks;
  last_block_hash = if tx.updated_block then tx.block_hash else db.last_block_hash;
  last_height = if tx.updated_block then tx.block_height else db.last_height;
}

unfoldable pub commit : Conn → MemDb
unfolding merge_blocks merge_utxos remove_utxos
commit c = remove_utxos c.tx.del_utxos (merge_utxos c.tx.utxos (merge_blocks c.tx c.db))

abbrev pub is_empty : Map String (List BalanceHeight) → Bool
is_empty [] = true
is_empty (_ ∷ _) = false

-- `Close` leaves a nil map of balances, which panics when it is written.
unfoldable pub finish : {A : Type 0} → Result Error A × Conn → Result Error A × MemDb
unfolding commit
finish (ok a, c) =
    if c.db.closed && not (is_empty c.tx.balances) then (panic, c.db) else (ok a, commit c)
finish (err e, c) = (err e, c.db)
finish (panic, c) = (panic, c.db)

unfoldable pub update : {A : Type 0} → Call A → MemDb → Result Error A × MemDb
unfolding finish
update f db = finish (f (record { db = db; tx = new_transaction true }))

unfoldable pub view : {A : Type 0} → Call A → MemDb → Result Error A × MemDb
view f db = let (r, c) = f (record { db = db; tx = new_transaction false }) in (r, c.db)

unfoldable pub close : MemDb → Result Error (Unit {0}) × MemDb
close db =
    if db.closed
    then (err already_closed, db)
    else (ok tt, record db { balances = []; closed = true })
