-- ===== src/BackendDb.antt =====
-- backend/backenddb/interface.go: the errors of the database interface, and the outpoints that its
-- entries are keyed by. `Error` also has the other errors that the program tells apart. Hashes are
-- their 32 bytes read as one number, so the zero hash is 0; the int8 of a tree is its bit pattern,
-- below 2 ^ 8.
pub mod UtxoIndex
use dcrros.Prelude.{ℕ, String, ◌≡◌, ◌↔◌, Bool, true, ◌&&◌, arith, nat_eq}
use dcrros.Prelude.Keys.{Comparable}
use dcrros.Types.Errors.{GoError}

pub data Error : Type 0 where
  block_height_not_found not_tip block_already_processed not_extending_tip already_closed : Error
  -- types/block.go
  needs_previous_block : Error
  -- an error made by `fmt.Errorf`, by its format
  plain : String → Error
  -- an error that a callback passes on
  go : GoError → Error

pub record OutPoint : Type 0 where
  pub hash : ℕ
  pub index : ℕ
  pub tree : ℕ

abbrev pub outpoint_eq : OutPoint → OutPoint → Bool
outpoint_eq a b = nat_eq a.hash b.hash && nat_eq a.index b.index && nat_eq a.tree b.tree

pub outpoint_eq_iff : (a b : OutPoint) → (outpoint_eq a b ≡ true) ↔ (a ≡ b)
outpoint_eq_iff a b = (λ h. ground arith, λ h. ground arith)

instance abbrev pub outpoint_comparable : Comparable OutPoint
outpoint_comparable = record { equal = outpoint_eq; equal_iff = outpoint_eq_iff }
