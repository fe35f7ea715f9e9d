-- ===== src/MemDb/Ledger.antt =====
-- `AddUtxo` and `DelUtxo` of memdb.go, by what `ListUtxos` shows after them.
use dcrros.Prelude.{ℕ, String, ◌≡◌, ◌∙◌, true, none, some, arith, if◌then◌else◌}
use dcrros.Prelude.Maps.{Map, lookup, insert, erase, lookup-nil, lookup-insert, lookup-erase}
use dcrros.Prelude.Keys.{◌==◌, string_comparable}
use dcrros.Prelude.Results.{ok}
use dcrros.BackendDb.{OutPoint, outpoint_comparable}
use dcrros.MemDb.State.{Conn}
use dcrros.MemDb.Utxos.{
  map_at, erase_at, insert_at, added_tx, deleted_tx, add_utxo, del_utxo, listing,
}
use dcrros.MemDb.Buckets.{lookup-listing}

lookup-insert_at {ℓ} :
    {V : Type ℓ} (a k : String) (o p : OutPoint) (v : V) (m : Map String (Map OutPoint V))
    → lookup p (map_at (insert_at a o v m) k) ≡ (
        if a == k
        then (if o == p then some v else lookup p (map_at m k))
        else lookup p (map_at m k))
unfolding insert_at
lookup-insert_at a k o p v m = ground (
  arith,
  lookup-insert a k (insert o v (map_at m a)) m,
  lookup-insert o p v (map_at m a),
  string_comparable.equal_iff a k,
)

lookup-erase_at {ℓ} :
    {V : Type ℓ} (a k : String) (o p : OutPoint) (m : Map String (Map OutPoint V))
    → lookup p (map_at (erase_at a o m) k)
      ≡ (if a == k then (if o == p then none else lookup p (map_at m k)) else lookup p (map_at m k))
unfolding erase_at
lookup-erase_at {V} a k o p m = ground (
  arith,
  lookup-insert a k (erase o (map_at m a)) m,
  lookup-erase o p (map_at m a),
  string_comparable.equal_iff a k,
  lookup-nil {V = V} p,
)

-- A writable transaction takes the utxo: from then on it lists the amount under that account and
-- outpoint, and every other listing is as it was.
pub listing-add_utxo :
    (a k : String) (o p : OutPoint) (x : ℕ) (c : Conn)
    → c.tx.writable ≡ true
    → (c' : Conn) × (add_utxo a o x c ≡ (ok tt, c'))
      × (lookup p (listing c' k) ≡ (
          if a == k
          then (if o == p then some x else lookup p (listing c k))
          else lookup p (listing c k)))
listing-add_utxo a k o p x c w =
    let c' : Conn = record c { tx = added_tx a o x c.tx } in
    (
      c',
      unfold add_utxo in ground arith,
      lookup-listing c' k p
          ∙ unfold added_tx in
            ground (
              arith,
              lookup-insert_at a k o p x c.tx.utxos,
              lookup-erase_at a k o p c.tx.del_utxos,
              lookup-listing c k p,
            ),
    )

-- A writable transaction drops the utxo: from then on it lists nothing under that account and
-- outpoint, and every other listing is as it was.
pub listing-del_utxo :
    (a k : String) (o p : OutPoint) (c : Conn)
    → c.tx.writable ≡ true
    → (c' : Conn) × (del_utxo a o c ≡ (ok tt, c'))
      × (lookup p (listing c' k) ≡ (
          if a == k
          then (if o == p then none else lookup p (listing c k))
          else lookup p (listing c k)))
listing-del_utxo a k o p c w =
    let c' : Conn = record c { tx = deleted_tx a o c.tx } in
    (
      c',
      unfold del_utxo in ground arith,
      lookup-listing c' k p
          ∙ unfold deleted_tx in
            ground (
              arith,
              lookup-insert_at a k o p tt c.tx.del_utxos,
              lookup-erase_at a k o p c.tx.utxos,
              lookup-listing c k p,
            ),
    )
