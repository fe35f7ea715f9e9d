-- ===== src/MemDb/Index.antt =====
-- backend/internal/memdb/memdb.go: the in-memory database in the place of `UtxoIndex`.
use dcrros.Prelude.{ℕ, ◌≡◌, sym, ap, ◌∙◌, String, true, Option, none, some, arith, if◌then◌else◌}
use mathlib.Core.Path.{subst}
use text.Mathlib.Text.{◌==◌ as str_eq}
use dcrros.Prelude.Maps.{lookup}
use dcrros.Prelude.Results.{Result, ok}
use dcrros.BackendDb.{Error, OutPoint, outpoint_eq, outpoint_comparable}
use dcrros.BackendDb.UtxoIndex.{UtxoIndex}
use dcrros.MemDb.State.{Conn}
use dcrros.MemDb.Utxos.{added_tx, deleted_tx, add_utxo, del_utxo, listing}
use dcrros.MemDb.Ledger.{listing-add_utxo, listing-del_utxo}

abbrev pub listed : Conn → String → OutPoint → Option ℕ
listed c k p = lookup p (listing c k)

-- Two ends of one call are the same.
same_end :
    {c d : Conn} {r : Result Error (Unit {0}) × Conn} → r ≡ (ok tt, c) → r ≡ (ok tt, d) → c ≡ d
same_end e e' = ap (λ r. r.1) (sym e ∙ e')

pub listed-add_utxo :
    (a : String) (o : OutPoint) (x : ℕ) (c : Conn)
    → c.tx.writable ≡ true
    → (c' : Conn) × ((add_utxo a o x c ≡ (ok tt, c'))
        × ((c'.tx.writable ≡ true)
            × ((k : String) (p : OutPoint)
                → listed c' k p ≡ (
                    if str_eq a k
                    then (if outpoint_eq o p then some x else listed c k p)
                    else listed c k p))))
unfolding add_utxo added_tx
listed-add_utxo a o x c w =
    let c' : Conn = record c { tx = added_tx a o x c.tx } in
    let e : add_utxo a o x c ≡ (ok tt, c') = ground arith in
    (
      c',
      (
        e,
        (
          w,
          λ k p.
              let l = listing-add_utxo a k o p x c w in
              subst
                (λ d. listed d k p ≡ (
                  if str_eq a k
                  then (if outpoint_eq o p then some x else listed c k p)
                  else listed c k p))
                (same_end l.1 e) l.2,
        ),
      ),
    )

pub listed-del_utxo :
    (a : String) (o : OutPoint) (c : Conn)
    → c.tx.writable ≡ true
    → (c' : Conn) × ((del_utxo a o c ≡ (ok tt, c'))
        × ((c'.tx.writable ≡ true)
            × ((k : String) (p : OutPoint)
                → listed c' k p ≡ (
                    if str_eq a k
                    then (if outpoint_eq o p then none else listed c k p)
                    else listed c k p))))
unfolding del_utxo deleted_tx
listed-del_utxo a o c w =
    let c' : Conn = record c { tx = deleted_tx a o c.tx } in
    let e : del_utxo a o c ≡ (ok tt, c') = ground arith in
    (
      c',
      (
        e,
        (
          w,
          λ k p.
              let l = listing-del_utxo a k o p c w in
              subst
                (λ d. listed d k p ≡ (
                  if str_eq a k
                  then (if outpoint_eq o p then none else listed c k p)
                  else listed c k p))
                (same_end l.1 e) l.2,
        ),
      ),
    )

abbrev pub mem_index : UtxoIndex Conn
mem_index = record {
  add_utxo = add_utxo;
  del_utxo = del_utxo;
  utxos = listed;
  IsWritable = λ c. c.tx.writable ≡ true;
  utxos-add_utxo = listed-add_utxo;
  utxos-del_utxo = listed-del_utxo;
}
