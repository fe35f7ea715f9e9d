-- ===== src/MemDb/Buckets.antt =====
-- The three buckets in which memdb.go keeps the utxos of an account, taken together: what is
-- listed from them, and when they are well formed.
use dcrros.Prelude.{ℕ, String, ◌≡◌, refl, Option, none, some, List, [], ◌∷◌, arith, if◌then◌else◌}
use dcrros.Prelude.Maps.{
  Map, lookup, insert, insert_all, or_else, lookup-nil, lookup-cons, lookup-insert, lookup-erase,
  lookup-insert_all,
}
use dcrros.Prelude.Keys.{◌==◌, string_comparable}
use dcrros.BackendDb.{OutPoint, outpoint_comparable}
use dcrros.MemDb.State.{Utxo, MemDb, Conn}
use dcrros.MemDb.Balances.{or_nil}
use dcrros.MemDb.Utxos.{
  map_at, insert_slice, erase_all, insert_single, insert_few, stored_utxos, listing,
}

-- The entry of a slice that `ListUtxos` shows: the last one with the outpoint.
abbrev pub few_lookup : OutPoint → List Utxo → Option ℕ
few_lookup outp [] = none
few_lookup outp (u ∷ us) =
    or_else (few_lookup outp us) (if u.outp == outp then some u.amt else none)

abbrev pub single_lookup : OutPoint → Option Utxo → Option ℕ
single_lookup outp none = none
single_lookup outp (some u) = if u.outp == outp then some u.amt else none

-- A removal hides an entry.
abbrev pub hide : Option (Unit {0}) → Option ℕ → Option ℕ
hide none o = o
hide (some _) o = none

pub record Buckets : Type 0 where
  pub single : Option Utxo
  pub few : Option (List Utxo)
  pub many : Option (Map OutPoint ℕ)

abbrev pub buckets : MemDb → String → Buckets
buckets db account = record {
  single = lookup account db.single_utxos;
  few = lookup account db.few_utxos;
  many = lookup account db.utxos;
}

abbrev pub stored_in : Buckets → OutPoint → Option ℕ
stored_in b outp =
    or_else (lookup outp (or_nil b.many))
      (or_else (few_lookup outp (or_nil b.few)) (single_lookup outp b.single))

-- No outpoint is twice in the slice.
abbrev pub Distinct : List Utxo → Type 0
Distinct [] = Unit
Distinct (u ∷ us) = (few_lookup u.outp us ≡ none) × Distinct us

-- An account has at most one bucket, and its slice has no outpoint twice.
abbrev pub Apart : Option Utxo → Option (List Utxo) → Option (Map OutPoint ℕ) → Type 0
Apart (some u) none none = Unit
Apart (some u) none (some m) = ⊥
Apart (some u) (some us) m = ⊥
Apart none (some us) none = Distinct us
Apart none (some us) (some m) = ⊥
Apart none none m = Unit

abbrev pub IsApart : Buckets → Type 0
IsApart b = Apart b.single b.few b.many

lookup-insert_slice :
    (outp : OutPoint) (res : Map OutPoint ℕ) (us : List Utxo)
    → lookup outp (insert_slice res us) ≡ or_else (few_lookup outp us) (lookup outp res)
unfolding insert_slice
lookup-insert_slice outp res [] = refl
lookup-insert_slice outp res (u ∷ us) = ground (
  arith,
  lookup-insert_slice outp (insert u.outp u.amt res) us,
  lookup-insert u.outp outp u.amt res,
)

pub lookup-insert_few :
    (outp : OutPoint) (res : Map OutPoint ℕ) (few : Option (List Utxo))
    → lookup outp (insert_few res few) ≡ or_else (few_lookup outp (or_nil few)) (lookup outp res)
unfolding insert_few
lookup-insert_few outp res none = refl
lookup-insert_few outp res (some us) = lookup-insert_slice outp res us

pub lookup-insert_single :
    (outp : OutPoint) (res : Map OutPoint ℕ) (first : Option Utxo)
    → lookup outp (insert_single res first) ≡ or_else (single_lookup outp first) (lookup outp res)
unfolding insert_single
lookup-insert_single outp res none = refl
lookup-insert_single outp res (some u) = ground (arith, lookup-insert u.outp outp u.amt res)

lookup-erase_all :
    (outp : OutPoint) (res : Map OutPoint ℕ) (dels : Map OutPoint (Unit {0}))
    → lookup outp (erase_all res dels) ≡ hide (lookup outp dels) (lookup outp res)
unfolding erase_all
lookup-erase_all outp res [] = ground (arith, lookup-nil {V = Unit {0}} outp)
lookup-erase_all outp res ((o, d) ∷ dels) = ground (
  arith,
  lookup-erase o outp (erase_all res dels),
  lookup-erase_all outp res dels,
  lookup-cons outp o d dels,
)

-- What the buckets of an account list.
pub lookup-stored_utxos :
    (db : MemDb) (account : String) (outp : OutPoint)
    → lookup outp (stored_utxos db account) ≡ stored_in (buckets db account) outp
unfolding stored_utxos
lookup-stored_utxos db account outp =
    let first = lookup account db.single_utxos in
    let few = lookup account db.few_utxos in
    ground (
      arith,
      lookup-insert_all outp (insert_few (insert_single [] first) few) (map_at db.utxos account),
      lookup-insert_few outp (insert_single [] first) few,
      lookup-insert_single outp [] first,
      lookup-nil {V = ℕ} outp,
    )

-- What `ListUtxos` shows for an outpoint: nothing if the transaction removed it, else what the
-- transaction added, else what is stored.
pub lookup-listing :
    (c : Conn) (account : String) (outp : OutPoint)
    → lookup outp (listing c account)
      ≡ hide (lookup outp (map_at c.tx.del_utxos account)) (
          or_else (lookup outp (map_at c.tx.utxos account)) (stored_in (buckets c.db account) outp))
unfolding listing
lookup-listing c account outp =
    let stored = stored_utxos c.db account in
    let added = map_at c.tx.utxos account in
    rw (
      lookup-erase_all outp (insert_all stored added) (map_at c.tx.del_utxos account),
      lookup-insert_all outp stored added,
      lookup-stored_utxos c.db account outp,
    )
