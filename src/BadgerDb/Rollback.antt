-- ===== src/BadgerDb/Rollback.antt =====
-- backend/internal/badgerdb/badgerdb.go: `RollbackTip` where no block below the tip is stored.
use dcrros.Prelude.{ℕ, ◌≡◌, refl, ◌∙◌, true, false, List, [], ◌∷◌, nat_eq_refl}
use dcrros.Prelude.Words.{sub64}
use dcrros.Prelude.Results.{ok, err}
use dcrros.BackendDb.{plain}
use dcrros.BadgerDb.{
  KeyError, Txn, del_account_balance_at, del_balances, last_processed_block, rollback_tip,
  fetch_last_processed_account_block, fetch_processed_block_hash, fetch_block_accounts,
}
use dcrros.BadgerDb.Keys.{processed_block_key, account_balance_at_height_key}
use dcrros.BadgerDb.Writes.{bytes_eq, IsTxn}

balance_key-other :
    (account : List ℕ) (height j : ℕ)
    → bytes_eq (account_balance_at_height_key account height) (processed_block_key j) ≡ false
unfolding bytes_eq account_balance_at_height_key processed_block_key
balance_key-other account height j = refl

module _ {S : Type 0} (db : Txn S) (laws : IsTxn db) where
  -- The removal of balances leaves the blocks alone.
  del_balances-blocks :
      (accounts : List (List ℕ)) (height : ℕ) (s : S)
      → laws.IsWritable s
      → (s' : S) × ((del_balances db accounts height s ≡ (ok tt, s'))
          × ((j : ℕ) → db.get (processed_block_key j) s' ≡ db.get (processed_block_key j) s))
  unfolding del_balances del_account_balance_at
  del_balances-blocks [] height s h = (s, (refl, λ j. refl))
  del_balances-blocks (account ∷ accounts) height s h =
      let (s1, (deleted, (h1, got1))) =
        laws.get-delete (account_balance_at_height_key account height) s h in
      let (s2, (rest, got2)) = del_balances-blocks accounts height s1 h1 in
      (
        s2,
        (
          rw (deleted, rest) refl,
          λ j. got2 j ∙ rw (got1 (processed_block_key j), balance_key-other account height j) refl,
        ),
      )

  -- RollbackTip of the tip, in a writable transaction, fails where the block below it is not stored.
  -- badger keeps its promises on writes.
  pub rollback_tip_fails :
      (block_hash height : ℕ) (s : S)
      → laws.IsWritable s
      → fetch_last_processed_account_block db s ≡ ok (block_hash, height)
      → fetch_processed_block_hash db (sub64 height 1) s ≡ err KeyError.key_not_found
      → (s' : S) × (rollback_tip db true block_hash height s ≡ (err (plain "Key not found"), s'))
  unfolding rollback_tip last_processed_block fetch_processed_block_hash
  rollback_tip_fails block_hash height s h tip missing =
      let (s1, (deleted, got)) =
        del_balances-blocks (fetch_block_accounts db height s) height s h in
      (
        s1,
        rw (tip, nat_eq_refl height, nat_eq_refl block_hash, deleted, got (sub64 height 1), missing)
            refl,
      )
