-- ===== src/BackendDb/UtxoIndex.antt =====
-- backend/backenddb/interface.go: what the server uses of the utxo index of a database, inside a
-- writable transaction, and what the index promises.
use dcrros.Prelude.{ℕ, ◌≡◌, String, Option, none, some, if◌then◌else◌}
use text.Mathlib.Text.{◌==◌ as str_eq}
use dcrros.Prelude.Results.{Action, ok}
use dcrros.BackendDb.{Error, OutPoint, outpoint_eq}

pub record UtxoIndex (S : Type 0) : Type 1 where
  pub add_utxo : String → OutPoint → ℕ → Action Error S (Unit {0})
  pub del_utxo : String → OutPoint → Action Error S (Unit {0})
  -- the amount that `ListUtxos` gives under an account and an outpoint
  pub utxos : S → String → OutPoint → Option ℕ
  pub IsWritable : S → Type 0
  pub utxos-add_utxo :
      (a : String) (o : OutPoint) (x : ℕ) (s : S)
      → IsWritable s
      → (s' : S) × ((add_utxo a o x s ≡ (ok tt, s'))
          × (IsWritable s'
              × ((k : String) (p : OutPoint)
                  → utxos s' k p ≡ (
                      if str_eq a k
                      then (if outpoint_eq o p then some x else utxos s k p)
                      else utxos s k p))))
  pub utxos-del_utxo :
      (a : String) (o : OutPoint) (s : S)
      → IsWritable s
      → (s' : S) × ((del_utxo a o s ≡ (ok tt, s'))
          × (IsWritable s'
              × ((k : String) (p : OutPoint)
                  → utxos s' k p ≡ (
                      if str_eq a k
                      then (if outpoint_eq o p then none else utxos s k p)
                      else utxos s k p))))
