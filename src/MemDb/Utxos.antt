-- ===== src/MemDb/Utxos.antt =====
-- The utxo index of the in-memory database inside a transaction (memdb.go): `AddUtxo`, `DelUtxo`
-- and `ListUtxos`. Stored utxos lie in one of three buckets for each account.
use dcrros.Prelude.{ℕ, String, not, Option, none, some, List, [], ◌∷◌}
use dcrros.Prelude.Maps.{Map, lookup, insert, erase, insert_all}
use dcrros.Prelude.Keys.{string_comparable}
use dcrros.Prelude.Results.{gets, throw_if, ◌>>=◌, ◌>>◌, modify}
use dcrros.BackendDb.{plain, OutPoint, outpoint_comparable}
use dcrros.MemDb.Balances.{or_nil}
use dcrros.MemDb.State.{Utxo, Transaction, MemDb, Conn, Call}

-- A read of a map of maps: a missing key gives the nil map.
abbrev pub map_at {ℓ} : {V : Type ℓ} → Map String (Map OutPoint V) → String → Map OutPoint V
map_at m account = or_nil (lookup account m)

-- Deleting from a nil map does nothing and leaves it nil.
unfoldable pub erase_at {ℓ} :
    {V : Type ℓ} → String → OutPoint → Map String (Map OutPoint V) → Map String (Map OutPoint V)
erase_at account outp m = elim (lookup account m) [
  | none ↦ m
  | some us ↦ insert account (erase outp us) m
]

-- A write makes the map of the account if it is nil.
unfoldable pub insert_at {ℓ} :
    {V : Type ℓ} → String → OutPoint → V → Map String (Map OutPoint V) → Map String (Map OutPoint V)
insert_at account outp v m = insert account (insert outp v (map_at m account)) m

unfoldable pub added_tx : String → OutPoint → ℕ → Transaction → Transaction
unfolding erase_at insert_at
added_tx account outp amount tx = record tx {
  utxos = insert_at account outp amount tx.utxos;
  del_utxos = erase_at account outp tx.del_utxos;
}

unfoldable pub deleted_tx : String → OutPoint → Transaction → Transaction
unfolding erase_at insert_at
deleted_tx account outp tx = record tx {
  utxos = erase_at account outp tx.utxos;
  del_utxos = insert_at account outp tt tx.del_utxos;
}

unfoldable pub add_utxo : String → OutPoint → ℕ → Call (Unit {0})
unfolding added_tx
add_utxo account outp amount = do
  tx ← gets (λ c. c.tx)
  throw_if (not tx.writable) (plain "unwritable tx")
  modify (λ c. record c { tx = added_tx account outp amount c.tx })

unfoldable pub del_utxo : String → OutPoint → Call (Unit {0})
unfolding deleted_tx
del_utxo account outp = do
  tx ← gets (λ c. c.tx)
  throw_if (not tx.writable) (plain "unwritable tx")
  modify (λ c. record c { tx = deleted_tx account outp c.tx })

-- for _, utxo := range utxos { res[utxo.outp] = utxo.amt }
unfoldable pub insert_slice : Map OutPoint ℕ → List Utxo → Map OutPoint ℕ
insert_slice res [] = res
insert_slice res (u ∷ us) = insert_slice (insert u.outp u.amt res) us

-- for outp := range dels { delete(res, outp) }
unfoldable pub erase_all : Map OutPoint ℕ → Map OutPoint (Unit {0}) → Map OutPoint ℕ
erase_all res [] = res
erase_all res ((outp, _) ∷ dels) = erase outp (erase_all res dels)

unfoldable pub insert_single : Map OutPoint ℕ → Option Utxo → Map OutPoint ℕ
insert_single res none = res
insert_single res (some u) = insert u.outp u.amt res

unfoldable pub insert_few : Map OutPoint ℕ → Option (List Utxo) → Map OutPoint ℕ
unfolding insert_slice
insert_few res none = res
insert_few res (some us) = insert_slice res us

-- The part of the listing that reads the buckets of the database.
unfoldable pub stored_utxos : MemDb → String → Map OutPoint ℕ
unfolding insert_few insert_single
stored_utxos db account =
    insert_all
      (insert_few (insert_single [] (lookup account db.single_utxos)) (lookup account db.few_utxos))
      (map_at db.utxos account)

-- Stored utxos, then those added by the transaction, without those that it removed.
unfoldable pub listing : Conn → String → Map OutPoint ℕ
unfolding stored_utxos erase_all
listing c account =
    erase_all (insert_all (stored_utxos c.db account) (map_at c.tx.utxos account))
      (map_at c.tx.del_utxos account)

unfoldable pub list_utxos : String → Call (Map OutPoint ℕ)
unfolding listing
list_utxos account = gets (λ c. listing c account)
